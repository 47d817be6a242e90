-- ===== src/GoStd/Fmt.antt =====
-- The parts of Go's `fmt` and `strings` that stay parameters: `%q`, `%d`, and `strings.ToUpper`,
-- whose table of Unicode is large.
use authzmtls.Common.{ℕ, ◌-◌, ◌&&◌, ◌≡◌, true, ltb, leb, Bytes, all, map, if◌then◌else◌}

pub record Fmt : Type 0 where
  pub quote : Bytes → Bytes
  pub decimal : ℕ → Bytes
  pub to_upper : Bytes → Bytes

abbrev pub upper_byte : ℕ → ℕ
upper_byte b = if leb b'a' b && leb b b'z' then b - 32 else b

-- What `strings.ToUpper` does with ASCII text.
abbrev pub UppersAscii : Fmt → Type 0
UppersAscii fmt = (s : Bytes) → all (λ b. ltb b 128) s ≡ true → fmt.to_upper s ≡ map upper_byte s
