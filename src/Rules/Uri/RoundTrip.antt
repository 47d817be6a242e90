-- ===== src/Rules/Uri/RoundTrip.antt =====
-- `pathSegments` reads back the segments of a URI that is put together from them.
use authzmtls.Common.{
  ℕ, ◌≡◌, ◌≢◌, ap, ◌∙◌, true, false, List, [], ◌∷◌, ◌++◌, append-nil, Option, none, some, Bytes,
  arith, All, All-map, Lacks, bytes_eq, bytes_eq_iff,
}
use authzmtls.GoStd.Strings.{before, join, trim}
use authzmtls.GoStd.Strings.Split.{split-join}
use authzmtls.GoStd.Strings.Trim.{IsSegment, join-ne-nil, before-Lacks, before-append, trim-join}
use authzmtls.Rules.Uri.{is_version_segment, drop_version, segments_of, path_segments}

-- A segment of a request's path: not empty, with no `/` and no `?`.
abbrev pub IsUriSegment : Bytes → Type 0
IsUriSegment s = IsSegment b'/' s × Lacks b'?' s

abbrev pub with_query : Option Bytes → Bytes
with_query none = []
with_query (some q) = b'?' ∷ q

abbrev pub with_version : Option Bytes → List Bytes → List Bytes
with_version none segs = segs
with_version (some v) segs = v ∷ segs

-- `/v1.43/containers/create?name=x` from its version, its segments and its query.
abbrev pub uri_of : Option Bytes → List Bytes → Option Bytes → Bytes
uri_of version segs query =
    (b'/' ∷ join (b'/' ∷ []) (with_version version segs)) ++ with_query query

-- A version that the program recognises; without one the first segment must not look like one.
abbrev pub VersionFits : Option Bytes → Bytes → Type 0
VersionFits none first = is_version_segment first ≡ false
VersionFits (some v) first = IsUriSegment v × (is_version_segment v ≡ true)

Lacks-append : (c : ℕ) (s t : Bytes) → Lacks c s → Lacks c t → Lacks c (s ++ t)
Lacks-append c [] t h k = k
Lacks-append c (b ∷ s) t h k = (h.0, Lacks-append c s t h.1 k)

Lacks-join :
    (c : ℕ) (sep : Bytes) (ps : List Bytes) → Lacks c sep → All (Lacks c) ps → Lacks c (join sep ps)
unfolding join
Lacks-join c sep [] h k = tt
Lacks-join c sep (p ∷ []) h k = k.0
Lacks-join c sep (p ∷ q ∷ ps) h k =
    Lacks-append c p (sep ++ join sep (q ∷ ps)) k.0
      (Lacks-append c sep (join sep (q ∷ ps)) h (Lacks-join c sep (q ∷ ps) h k.1))

before-with_query :
    (s : Bytes) (query : Option Bytes) → Lacks b'?' s → before b'?' (s ++ with_query query) ≡ s
before-with_query s none h = ap (before b'?') (append-nil s) ∙ before-Lacks b'?' s h
before-with_query s (some q) h = before-append b'?' s q h

path_segments_lem :
    (p : Bytes) (ps : List Bytes) (query : Option Bytes)
    → All IsUriSegment (p ∷ ps)
    → path_segments ((b'/' ∷ join (b'/' ∷ []) (p ∷ ps)) ++ with_query query) ≡ drop_version (p ∷ ps)
unfolding path_segments
path_segments_lem p ps query h =
    let path = join (b'/' ∷ []) (p ∷ ps) in
    let no_query : Lacks b'?' (b'/' ∷ path) = (
      ground arith,
      Lacks-join b'?' (b'/' ∷ []) (p ∷ ps) (ground arith, tt)
          (All-map IsUriSegment (Lacks b'?') (λ s k. k.1) (p ∷ ps) h),
    ) in
    let segments = All-map IsUriSegment (IsSegment b'/') (λ s k. k.0) (p ∷ ps) h in
    ap (λ s. segments_of (trim b'/' s)) (before-with_query (b'/' ∷ path) query no_query)
    ∙ ap segments_of (trim-join b'/' p ps segments)
    ∙ rw (path_ne_nil (join-ne-nil b'/' p ps segments.0)) (
        ap drop_version (
          split-join b'/' (p ∷ ps) (ground arith)
            (All-map (IsSegment b'/') (Lacks b'/') (λ s k. k.1) (p ∷ ps) segments)))
  where
    path_ne_nil : {s : Bytes} → s ≢ [] → bytes_eq s [] ≡ false
    path_ne_nil {s} h = ground (arith, bytes_eq_iff s [])

-- The version prefix and the query change nothing: whatever they are, the segments are read back.
pub path_segments-uri_of :
    (version : Option Bytes) (first : Bytes) (segs : List Bytes) (query : Option Bytes)
    → VersionFits version first
    → All IsUriSegment (first ∷ segs)
    → path_segments (uri_of version (first ∷ segs) query) ≡ first ∷ segs
path_segments-uri_of none first segs query v h = path_segments_lem first segs query h ∙ rw v
path_segments-uri_of (some version) first segs query v h =
    path_segments_lem version (first ∷ segs) query (v.0, h) ∙ rw v.1
