-- ===== src/GoStd.antt =====
-- The parts of Go's language and standard library that the program uses on strings and paths:
-- ranging over a string (`unicode/utf8`), `strings`, and `path/filepath` on Unix.
pub mod Runes
pub mod Strings
pub mod FilePath
pub mod Replace
pub mod Fmt
