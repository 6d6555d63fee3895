-- ===== src/Proxy/Tokens.antt =====
-- The tokens of a Connection field, as `remove_hop_by_hop_headers` reads them.
use mathlib.Core.Path.{ap₂}
use mathlib.Core.List.{append_assoc}
use eventedge.Base.{
  ℕ, zero, suc, ◌+◌, ◌-◌, ◌<◌, ◌≡◌, ◌≢◌, refl, sym, ap, ◌∙◌, inl, inr, Bool, true, false, ◌||◌,
  List, [], ◌∷◌, ◌++◌, Option, none, some, Text, length, length-append, find, take, drop, Lacks,
  find-split, drop_at, take-append, ltb, lt→ltb, ◌==◌, if◌then◌else◌, arith, shift,
}

abbrev pub is_blank : ℕ → Bool
is_blank c = c == b' ' || c == 9

-- `find_first_not_of(" \t")` and `find_last_not_of(" \t")`
unfoldable pub first_kept : Text → Option ℕ
first_kept [] = none
first_kept (c ∷ s) = if is_blank c then shift (first_kept s) else some 0

unfoldable pub last_kept : Text → Option ℕ
last_kept [] = none
last_kept (c ∷ s) = elim (last_kept s) [
  | some i ↦ some (suc i)
  | none ↦ if is_blank c then none else some 0
]

-- The token without the blanks around it. Both places lie in the token, so `substr` does not throw;
-- with `last` at `npos` it would take all from `first` on.
unfoldable pub strip : Text → Option Text
strip token = elim (first_kept token) [
  | none ↦ none
  | some first ↦ elim (last_kept token) [
    | none ↦ some (drop first token)
    | some last ↦ some (take (last - first + 1) (drop first token))
  ]
]

-- `value.find(',', start)`
unfoldable pub find_from : ℕ → ℕ → Text → Option ℕ
find_from c start s = elim (find c (drop start s)) [ none ↦ none | some i ↦ some (start + i) ]

abbrev pub push : Option Text → List Text → List Text
push none ts = ts
push (some t) ts = t ∷ ts

-- The `while` loop over one value, from `start` on.
unfoldable pub tokens_from : ℕ → ℕ → Text → List Text
tokens_from zero start value = []
tokens_from (suc fuel) start value =
    if ltb start (length value)
    then elim (find_from b',' start value) [
      | none ↦ push (strip (drop start value)) []
      | some end ↦
          push (strip (take (end - start) (drop start value))) (tokens_from fuel (end + 1) value)
    ]
    else []

-- Each round moves `start` on, so one more round than there are bytes is enough.
unfoldable pub connection_tokens : Text → List Text
connection_tokens value = tokens_from (suc (length value)) 0 value

-- The value cut at its commas, and the parts that are not blank, each without its blanks.
abbrev pub onto_first : ℕ → List Text → List Text
onto_first c [] = []
onto_first c (t ∷ ts) = (c ∷ t) ∷ ts

unfoldable pub split : Text → List Text
split [] = [] ∷ []
split (c ∷ s) = let rest = split s in if c == b',' then [] ∷ rest else onto_first c rest

unfoldable pub strip_all : List Text → List Text
strip_all [] = []
strip_all (t ∷ ts) = push (strip t) (strip_all ts)

split_lacking : (s : Text) → Lacks b',' s → split s ≡ s ∷ []
unfolding split
split_lacking [] h = refl
split_lacking (c ∷ s) h = rw (h.0, split_lacking s h.1)

split-append : (a b : Text) → Lacks b',' a → split (a ++ (b',' ∷ b)) ≡ a ∷ split b
unfolding split
split-append [] b h = ground arith
split-append (c ∷ a) b h = rw (h.0, split-append a b h.1)

-- One round, at a text `s` that stands behind `pre`.
module _ (pre s : Text) where
  rest_of : drop (length pre) (pre ++ s) ≡ s
  rest_of = drop_at pre s (length pre) 0 (omega arith)

  inside : s ≢ [] → ltb (length pre) (length (pre ++ s)) ≡ true
  inside ne = lt→ltb _ _ (omega (arith, length-append pre s, positive s ne))
    where
      positive : (s : Text) → s ≢ [] → 0 < length s
      positive [] ne = absurd (ne refl)
      positive (c ∷ s) ne = omega arith

  search_rest :
      find_from b',' (length pre) (pre ++ s)
      ≡ elim (find b',' s) [ none ↦ none | some i ↦ some (length pre + i) ]
  unfolding find_from
  search_rest = rw (rest_of, find_from)

  round_last :
      (fuel : ℕ)
      → s ≢ []
      → find b',' s ≡ none
      → tokens_from (suc fuel) (length pre) (pre ++ s) ≡ push (strip s) []
  unfolding tokens_from
  round_last fuel ne missing =
      let searched : find_from b',' (length pre) (pre ++ s) ≡ none =
        search_rest ∙ ground (arith, missing) in
      rw (inside ne, searched, rest_of)

  round_more :
      (fuel i : ℕ)
      → s ≢ []
      → find b',' s ≡ some i
      → tokens_from (suc fuel) (length pre) (pre ++ s)
        ≡ push (strip (take i s)) (tokens_from fuel (length pre + i + 1) (pre ++ s))
  unfolding tokens_from
  round_more fuel i ne found =
      let searched : find_from b',' (length pre) (pre ++ s) ≡ some (length pre + i) =
        search_rest ∙ ground (arith, found) in
      let span : length pre + i - length pre ≡ i = omega arith in
      rw (inside ne, searched, rest_of, span)

-- The part of a text before its first comma, and the rest.
split_at :
    (s a b : Text)
    → s ≡ a ++ (b',' ∷ b)
    → Lacks b',' a
    → push (strip (take (length a) s)) (strip_all (split b)) ≡ strip_all (split s)
unfolding strip_all
split_at s a b e lacks = rw (e, take-append a (b',' ∷ b), split-append a b lacks)

no_rest : (pre : Text) → ltb (length pre) (length (pre ++ [])) ≡ false
no_rest pre = let e = length-append pre [] in ground (arith, e)

tokens_from-strip_all :
    (fuel : ℕ) (pre s : Text)
    → length s < fuel
    → tokens_from fuel (length pre) (pre ++ s) ≡ strip_all (split s)
unfolding tokens_from strip_all split strip first_kept
tokens_from-strip_all zero pre s h = elim h [ ]
tokens_from-strip_all (suc fuel) pre [] h = rw (no_rest pre)
tokens_from-strip_all (suc fuel) pre (c ∷ s) h = elim (find-split b',' (c ∷ s)) [
  | inl (none_left, lacks) ↦
      round_last pre (c ∷ s) fuel (λ e. cc) none_left ∙ rw (split_lacking (c ∷ s) lacks)
  | inr (a, b, e, lacks, found) ↦
      let before = pre ++ (a ++ (b',' ∷ [])) in
      let whole : pre ++ (c ∷ s) ≡ before ++ b =
        ap (◌++◌ pre) (e ∙ sym (append_assoc a (b',' ∷ []) b))
        ∙ sym (append_assoc pre (a ++ (b',' ∷ [])) b) in
      let place : length pre + length a + 1 ≡ length before =
        omega (arith, length-append pre (a ++ (b',' ∷ [])), length-append a (b',' ∷ [])) in
      let shorter : length b < fuel = omega (arith, ap length e, length-append a (b',' ∷ b)) in
      round_more pre (c ∷ s) fuel (length a) (λ e. cc) found
      ∙ ap (push (strip (take (length a) (c ∷ s)))) (
          ap₂ (λ i t. tokens_from fuel i t) place whole
          ∙ tokens_from-strip_all fuel before b shorter)
      ∙ split_at (c ∷ s) a b e lacks
]

-- The loop strips the parts of the value between its commas.
pub connection_tokens-split : (value : Text) → connection_tokens value ≡ strip_all (split value)
unfolding connection_tokens
connection_tokens-split value = tokens_from-strip_all (suc (length value)) [] value (omega arith)
