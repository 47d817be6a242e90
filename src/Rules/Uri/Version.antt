-- ===== src/Rules/Uri/Version.antt =====
-- What `isVersionSegment` recognises.
use authzmtls.Common.{
  ℕ, ◌<◌, ◌≡◌, ◌≢◌, ◌↔◌, refl, sym, ap, ◌∙◌, true, List, [], ◌∷◌, Bytes, arith, All, Lacks, all,
  bytes_eq_iff, ◌==◌, and-eq-true, ==_iff, All-map, all_iff, subst,
}
use authzmtls.GoStd.Runes.{runes}
use authzmtls.GoStd.Runes.Laws.{ascii_of_runes, runes_ascii}
use authzmtls.GoStd.Strings.{split, join}
use authzmtls.GoStd.Strings.Split.{join-split, split-join, split-ne-nil}
use authzmtls.Rules.Uri.{is_digit, digit_group, is_version_segment}

-- Some digits.
abbrev pub IsNumber : Bytes → Type 0
IsNumber s = (s ≢ []) × All (λ b. is_digit b ≡ true) s

digit-lt : (c : ℕ) → is_digit c ≡ true → c < 128
digit-lt c h = ground arith

digits_of_runes : (s : Bytes) → all is_digit (runes s) ≡ true → All (λ b. is_digit b ≡ true) s
digits_of_runes s h =
    let digits = (all_iff is_digit (runes s)).0 h in
    let same = runes_ascii s (ascii_of_runes s (All-map _ _ digit-lt (runes s) digits)) in
    subst (All (λ b. is_digit b ≡ true)) same digits

runes_of_digits : (s : Bytes) → All (λ b. is_digit b ≡ true) s → all is_digit (runes s) ≡ true
runes_of_digits s h = rw (runes_ascii s (All-map _ _ digit-lt s h)) ((all_iff is_digit s).1 h)

digit_group_iff : (s : Bytes) → (digit_group s ≡ true) ↔ IsNumber s
digit_group_iff s = ground (arith, bytes_eq_iff s [], digits_of_runes s, runes_of_digits s)

-- A `v`, and numbers with dots between them.
abbrev pub IsVersion : Bytes → Type 0
IsVersion s =
    (numbers : List Bytes) × (numbers ≢ [])
    × All IsNumber numbers
    × (s ≡ b'v' ∷ join (b'.' ∷ []) numbers)

numbers-Lacks : (numbers : List Bytes) → All IsNumber numbers → All (Lacks b'.') numbers
numbers-Lacks numbers h =
    All-map IsNumber (Lacks b'.') (λ s k. All-map _ _ (λ b d. digit-ne-dot b d) s k.1) numbers h
  where
    digit-ne-dot : (b : ℕ) → is_digit b ≡ true → b ≢ b'.'
    digit-ne-dot b d = ground arith

groups_iff : (s : Bytes) → (all digit_group (split b'.' s) ≡ true) ↔ All IsNumber (split b'.' s)
groups_iff s =
    let a = all_iff digit_group (split b'.' s) in
    (
      λ h. All-map _ _ (λ g. (digit_group_iff g).0) (split b'.' s) (a.0 h),
      λ h. a.1 (All-map _ _ (λ g. (digit_group_iff g).1) (split b'.' s) h),
    )

is_version_segment-IsVersion : (s : Bytes) → is_version_segment s ≡ true → IsVersion s
unfolding is_version_segment
is_version_segment-IsVersion [] h = cc
is_version_segment-IsVersion (c ∷ []) h = cc
is_version_segment-IsVersion (c ∷ d ∷ s) h =
    let (is_v, groups) = and-eq-true (c == b'v') (all digit_group (split b'.' (d ∷ s))) h in
    (
      split b'.' (d ∷ s),
      split-ne-nil b'.' (d ∷ s),
      (groups_iff (d ∷ s)).0 groups,
      ap (λ b. b ∷ d ∷ s) ((==_iff c b'v').0 is_v) ∙ ap (◌∷◌ b'v') (sym (join-split b'.' (d ∷ s))),
    )

join-cons :
    (n : Bytes) (ns : List Bytes)
    → n ≢ []
    → (d : ℕ) × (s : Bytes) × (join (b'.' ∷ []) (n ∷ ns) ≡ d ∷ s)
unfolding join
join-cons [] ns h = absurd (h refl)
join-cons (d ∷ n) [] h = (d, n, refl)
join-cons (d ∷ n) (m ∷ ns) h = (d, _, refl)

IsVersion-is_version_segment : (s : Bytes) → IsVersion s → is_version_segment s ≡ true
unfolding is_version_segment
IsVersion-is_version_segment s ([], some_number, h, e) = absurd (some_number refl)
IsVersion-is_version_segment s (n ∷ ns, some_number, h, e) =
    let (d, t, f) = join-cons n ns h.0.0 in
    let groups = split-join b'.' (n ∷ ns) (ground arith) (numbers-Lacks (n ∷ ns) h) in
    let back : split b'.' (d ∷ t) ≡ n ∷ ns = ap (split b'.') (sym f) ∙ groups in
    rw (e, f) ((groups_iff (d ∷ t)).1 (rw back h))

-- A segment is a version if and only if it is a `v`, followed by one or more nonempty groups of
-- decimal digits with dots between them.
pub is_version_segment_iff : (s : Bytes) → (is_version_segment s ≡ true) ↔ IsVersion s
is_version_segment_iff s = (is_version_segment-IsVersion s, IsVersion-is_version_segment s)
