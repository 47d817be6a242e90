-- ===== src/Datasources/Names/Laws.antt =====
-- Splitting loses nothing, and reversing the parts twice gives the name back.
use mathlib.Core.List.{reverse, reverse-reverse, reverse-cons}
use authzmtls.Common.{
  ℕ, ◌≡◌, ◌≢◌, refl, sym, ap, ◌∙◌, inl, inr, Bool, Bool-cases, false, List, [], ◌∷◌, ◌++◌,
  append-nil, append_assoc, Bytes, ◌==◌, ==_iff, All, All-append,
}
use authzmtls.Datasources.Names.{
  Scan, comma, backslash, scan_byte, scan_all, start, split_on_unescaped_commas,
  normalize_subject_dn,
}
use authzmtls.GoStd.Strings.{join}
use authzmtls.GoStd.Strings.Split.{join-append}

scan_all-append : (st : Scan) (s t : Bytes) → scan_all st (s ++ t) ≡ scan_all (scan_all st s) t
unfolding scan_all
scan_all-append st [] t = refl
scan_all-append st (c ∷ s) t = scan_all-append (scan_byte st c) s t

-- Parts found before the scan stay in front of those that it finds.
abbrev behind : List Bytes → Scan → Scan
behind ps st = record st { parts = ps ++ st.parts }

scan_byte-behind :
    (ps : List Bytes) (st : Scan) (c : ℕ) → scan_byte (behind ps st) c ≡ behind ps (scan_byte st c)
unfolding scan_byte
scan_byte-behind ps st c = elim (Bool-cases st.escaped) [
  | inl literal ↦ rw literal
  | inr plain ↦ elim (Bool-cases (c == backslash)) [
    | inl escapes ↦ rw (plain, escapes)
    | inr other ↦ elim (Bool-cases (c == comma)) [
      | inl ends ↦
          rw (plain, other, ends)
            (ap (λ parts. record { parts = parts; current = []; escaped = false })
              (append_assoc ps st.parts (st.current ∷ [])))
      | inr goes_on ↦ rw (plain, other, goes_on)
    ]
  ]
]

scan_all-behind :
    (ps : List Bytes) (st : Scan) (s : Bytes)
    → scan_all (behind ps st) s ≡ behind ps (scan_all st s)
unfolding scan_all
scan_all-behind ps st [] = refl
scan_all-behind ps st (c ∷ s) =
    ap (λ t. scan_all t s) (scan_byte-behind ps st c) ∙ scan_all-behind ps (scan_byte st c) s

-- Scanned on its own, the text is one part, behind which `escaped` has this value.
abbrev pub Reads : Bytes → Bool → Type 0
Reads p escaped = scan_all start p ≡ record { parts = []; current = p; escaped = escaped }

-- A part that can stand before a comma: it does not end in a backslash that escapes.
abbrev pub Closed : Bytes → Type 0
Closed p = Reads p false

-- What holds between two steps of the loop.
record Sound (st : Scan) : Type 0 where
  done : All Closed st.parts
  doing : Reads st.current st.escaped

scan_byte-Reads :
    (current : Bytes) (escaped : Bool) (c : ℕ)
    → Reads current escaped
    → scan_all start (current ++ c ∷ [])
      ≡ scan_byte (record { parts = []; current = current; escaped = escaped }) c
unfolding scan_all
scan_byte-Reads current escaped c h =
    scan_all-append start current (c ∷ []) ∙ ap (λ st. scan_byte st c) h

scan_byte-Sound : (st : Scan) (c : ℕ) → Sound st → Sound (scan_byte st c)
unfolding scan_byte scan_all
scan_byte-Sound st c h =
    let next = scan_byte-Reads st.current st.escaped c h.doing in
    elim (Bool-cases st.escaped) [
      | inl literal ↦ rw literal (record { done = h.done; doing = rw literal at next })
      | inr plain ↦ elim (Bool-cases (c == backslash)) [
        | inl escapes ↦
            rw (plain, escapes) (record { done = h.done; doing = rw (plain, escapes) at next })
        | inr other ↦ elim (Bool-cases (c == comma)) [
          | inl ends ↦
              rw (plain, other, ends)
                (record {
                  done =
                      All-append Closed st.parts (st.current ∷ []) h.done (rw plain at h.doing, tt);
                  doing = refl;
                })
          | inr goes_on ↦
              rw (plain, other, goes_on)
                (record { done = h.done; doing = rw (plain, other, goes_on) at next })
        ]
      ]
    ]

scan_all-Sound : (st : Scan) (s : Bytes) → Sound st → Sound (scan_all st s)
unfolding scan_all
scan_all-Sound st [] h = h
scan_all-Sound st (c ∷ s) h = scan_all-Sound (scan_byte st c) s (scan_byte-Sound st c h)

abbrev parts_of : Scan → List Bytes
parts_of st = st.parts ++ st.current ∷ []

-- The bytes read so far.
text : Scan → Bytes
text st = join (comma ∷ []) (parts_of st)

join-grow :
    (ps : List Bytes) (x y : Bytes)
    → join (comma ∷ []) (ps ++ (x ++ y) ∷ []) ≡ join (comma ∷ []) (ps ++ x ∷ []) ++ y
unfolding join
join-grow [] x y = refl
join-grow (p ∷ ps) x y =
    join-append (comma ∷ []) p (x ++ y) ps []
    ∙ sym (append_assoc (join (comma ∷ []) (p ∷ ps)) (comma ∷ x) y)
    ∙ ap (λ t. t ++ y) (sym (join-append (comma ∷ []) p x ps []))

join-end :
    (ps : List Bytes) (x : Bytes)
    → join (comma ∷ []) ((ps ++ x ∷ []) ++ [] ∷ []) ≡ join (comma ∷ []) (ps ++ x ∷ []) ++ comma ∷ []
unfolding join
join-end [] x = join-append (comma ∷ []) x [] [] []
join-end (p ∷ ps) x = join-append (comma ∷ []) p [] (ps ++ x ∷ []) []

text-scan_byte : (st : Scan) (c : ℕ) → text (scan_byte st c) ≡ text st ++ c ∷ []
unfolding text scan_byte
text-scan_byte st c = elim (Bool-cases st.escaped) [
  | inl literal ↦ rw literal (join-grow st.parts st.current (c ∷ []))
  | inr plain ↦ elim (Bool-cases (c == backslash)) [
    | inl escapes ↦ rw (plain, escapes) (join-grow st.parts st.current (c ∷ []))
    | inr other ↦ elim (Bool-cases (c == comma)) [
      | inl ends ↦
          rw (plain, other, ends)
            (join-end st.parts st.current
              ∙ ap (λ b. join (comma ∷ []) (parts_of st) ++ b ∷ []) (sym ((==_iff c comma).0 ends)))
      | inr goes_on ↦ rw (plain, other, goes_on) (join-grow st.parts st.current (c ∷ []))
    ]
  ]
]

text-scan_all : (st : Scan) (s : Bytes) → text (scan_all st s) ≡ text st ++ s
unfolding scan_all
text-scan_all st [] = sym (append-nil (text st))
text-scan_all st (c ∷ s) =
    text-scan_all (scan_byte st c) s
    ∙ ap (λ t. t ++ s) (text-scan_byte st c)
    ∙ append_assoc (text st) (c ∷ []) s

-- Splitting at unescaped commas loses nothing, malformed names included: joined by commas, the parts
-- are the name.
pub join-split_on_unescaped_commas :
    (s : Bytes) → join (comma ∷ []) (split_on_unescaped_commas s) ≡ s
unfolding split_on_unescaped_commas text join
join-split_on_unescaped_commas s = text-scan_all start s

-- Closed parts, joined by commas, are read back.
split-join-Closed :
    (p : Bytes) (ps : List Bytes)
    → All Closed (p ∷ ps)
    → split_on_unescaped_commas (join (comma ∷ []) (p ∷ ps)) ≡ p ∷ ps
unfolding split_on_unescaped_commas join scan_all scan_byte
split-join-Closed p [] h = ap parts_of h.0
split-join-Closed p (q ∷ ps) h =
    let rest = join (comma ∷ []) (q ∷ ps) in
    ap parts_of (
      scan_all-append start p (comma ∷ rest)
      ∙ ap (λ st. scan_all st (comma ∷ rest)) h.0
      ∙ scan_all-behind (p ∷ []) start rest)
    ∙ ap (◌∷◌ p) (split-join-Closed q ps h.1)

All-reverse : (ps : List Bytes) → All Closed ps → All Closed (reverse ps)
All-reverse [] h = tt
All-reverse (p ∷ ps) h =
    rw reverse-cons (All-append Closed (reverse ps) (p ∷ []) (All-reverse ps h.1) (h.0, tt))

split-reverse :
    (ps : List Bytes)
    → ps ≢ []
    → All Closed ps
    → split_on_unescaped_commas (join (comma ∷ []) ps) ≡ ps
split-reverse [] h k = absurd (h refl)
split-reverse (p ∷ ps) h k = split-join-Closed p ps k

reverse-ne-nil : (ps : List Bytes) (p : Bytes) → reverse (ps ++ p ∷ []) ≢ []
reverse-ne-nil ps p h =
    let e = sym (reverse-reverse (ps ++ p ∷ [])) ∙ ap reverse h in append-ne-nil ps e
  where
    append-ne-nil : (qs : List Bytes) → (qs ++ p ∷ []) ≢ []
    append-ne-nil [] = λ k. cc
    append-ne-nil (q ∷ qs) = λ k. cc

parts-Closed : (st : Scan) → Sound st → st.escaped ≡ false → All Closed (parts_of st)
parts-Closed st sound h =
    All-append Closed st.parts (st.current ∷ []) sound.done (rw h at sound.doing, tt)

-- A name that does not end in an escaping backslash is normalized back by a second normalization.
pub normalize_subject_dn_involutive :
    (s : Bytes)
    → (scan_all start s).escaped ≡ false
    → normalize_subject_dn (normalize_subject_dn s) ≡ s
unfolding normalize_subject_dn split_on_unescaped_commas scan_all
normalize_subject_dn_involutive s h =
    let sound = scan_all-Sound start s (record { done = tt; doing = refl }) in
    let parts = split_on_unescaped_commas s in
    let closed : All Closed (reverse parts) =
      All-reverse parts (parts-Closed (scan_all start s) sound h) in
    ap (λ ps. join (comma ∷ []) (reverse ps))
      (split-reverse (reverse parts)
        (reverse-ne-nil (scan_all start s).parts (scan_all start s).current) closed)
    ∙ ap (join (comma ∷ [])) (reverse-reverse parts)
    ∙ join-split_on_unescaped_commas s
