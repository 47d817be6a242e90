-- ===== src/Datasources/Inputs/Warning.antt =====
-- internal/datasources/provider.go: the warning about a rejected variable, `warnRejected`, with what
-- `sanitizeForLog` shows of the value.
use authzmtls.Common.{
  ℕ, zero, suc, ◌≤◌, ◌<◌, ◌≡◌, ◌⊎◌, refl, ap, sym, ◌∙◌, inl, inr, Bool-cases, List, [], ◌∷◌, ◌++◌,
  Option, none, some, Bytes, codes, ltb, length, All, arith, if◌then◌else◌,
}
use authzmtls.Datasources.Inputs.{Rejected}
use authzmtls.GoStd.Runes.{runes}
use authzmtls.GoStd.Runes.RoundTrip.{IsScalar, runes-IsScalar, runes-encode}
use authzmtls.GoStd.Runes.Utf8.{encode, length-encode}

-- `runes[:n]`, where there are that many.
abbrev pub take : ℕ → List ℕ → List ℕ
take zero xs = []
take (suc n) [] = []
take (suc n) (x ∷ xs) = x ∷ take n xs

abbrev pub max_logged_runes : ℕ
max_logged_runes = 80

-- What of the value `sanitizeForLog` quotes.
unfoldable pub shown : Bytes → Bytes
unfolding runes encode
shown v =
    let all_runes = runes v in
    encode (
      if ltb max_logged_runes (length all_runes)
      then take max_logged_runes all_runes
      else all_runes)

-- `sanitizeForLog`; `quote` is `strconv.Quote`.
unfoldable pub sanitize_for_log : (Bytes → Bytes) → Bytes → Bytes
unfolding shown runes
sanitize_for_log quote v =
    let quoted = quote (shown v) in
    if ltb max_logged_runes (length (runes v)) then quoted ++ codes "...(truncated)" else quoted

-- `requestInfo`; a context has one or none.
pub record RequestInfo : Type 0 where
  pub method : Bytes
  pub uri : Bytes

-- `WithRequestContext` and `requestInfoFrom`, on what a context has for the key.
abbrev pub with_request_context : Bytes → Bytes → Option RequestInfo → Option RequestInfo
with_request_context method uri ctx = some (record { method = method; uri = uri })

-- `warnRejected`: the attributes of the line.
unfoldable pub warn_rejected :
    (Bytes → Bytes) → Option RequestInfo → Bytes → Rejected → List (Bytes × Bytes)
unfolding sanitize_for_log
warn_rejected quote info value (name, reason) =
    (codes "variable", name)
    ∷ (codes "reason", reason)
    ∷ (codes "value", sanitize_for_log quote value)
    ∷ elim info [
      | none ↦ []
      | some i ↦ (codes "request_method", i.method) ∷ (codes "request_uri", i.uri) ∷ []
    ]

length-take : (n : ℕ) (xs : List ℕ) → length (take n xs) ≤ n
length-take zero xs = omega arith
length-take (suc n) [] = omega arith
length-take (suc n) (x ∷ xs) = omega (arith, length-take n xs)

take_all : (n : ℕ) (xs : List ℕ) → length xs ≤ n → take n xs ≡ xs
take_all zero [] h = refl
take_all zero (x ∷ xs) h = absurd (omega arith)
take_all (suc n) [] h = refl
take_all (suc n) (x ∷ xs) h = ap (◌∷◌ x) (take_all n xs (omega arith))

All-take : (P : ℕ → Type 0) (n : ℕ) (xs : List ℕ) → All P xs → All P (take n xs)
All-take P zero xs h = tt
All-take P (suc n) [] h = tt
All-take P (suc n) (x ∷ xs) h = (h.0, All-take P n xs h.1)

shown-take : (v : Bytes) → shown v ≡ encode (take max_logged_runes (runes v))
unfolding shown
shown-take v = elim (Bool-cases (ltb max_logged_runes (length (runes v)))) [
  | inl long ↦ rw long refl
  | inr short ↦ rw short (ap encode (sym (take_all max_logged_runes (runes v) (ground arith))))
]

-- What of a rejected value reaches the log, through the quoting: the text of its first 80 runes, no
-- more than 320 bytes, with a mark behind the quoted text exactly if the value has more runes.
pub sanitize_for_log-shown :
    (quote : Bytes → Bytes) (v : Bytes)
    → (runes (shown v) ≡ take max_logged_runes (runes v))
      × (length (shown v) ≤ 320)
      × (((max_logged_runes < length (runes v))
            × (sanitize_for_log quote v ≡ quote (shown v) ++ codes "...(truncated)"))
          ⊎ ((length (runes v) ≤ max_logged_runes) × (sanitize_for_log quote v ≡ quote (shown v))))
unfolding sanitize_for_log
sanitize_for_log-shown quote v =
    let first = take max_logged_runes (runes v) in
    (
      ap runes (shown-take v)
          ∙ runes-encode first (All-take IsScalar max_logged_runes (runes v) (runes-IsScalar v)),
      rw (shown-take v)
          (omega (arith, length-encode first, length-take max_logged_runes (runes v))),
      elim (Bool-cases (ltb max_logged_runes (length (runes v)))) [
        | inl long ↦ inl (ground arith, rw long refl)
        | inr short ↦ inr (ground arith, rw short refl)
      ],
    )
