-- ===== src/Proxy/Stripping.antt =====
-- The tokens of a Connection field, described without the places at which the code cuts.
use eventedge.Base.{
  ℕ, ◌+◌, ◌-◌, ◌≡◌, refl, sym, ap, ◌∙◌, ◌⊎◌, inl, inr, true, false, List, [], ◌∷◌, ◌++◌, none, some,
  Text, length, length-append, take, drop, take_at, drop_at, All, Bool-cases, arith,
}
use mathlib.Core.List.{append_assoc}
use mathlib.Core.Path.{subst}
use eventedge.Proxy.Tokens.{
  is_blank, first_kept, last_kept, strip, split, strip_all, connection_tokens,
  connection_tokens-split,
}

-- A space or a tab.
abbrev pub IsBlank : ℕ → Type 0
IsBlank c = (c ≡ 32) ⊎ (c ≡ 9)

-- `t` is `p` without the blanks around it, and neither begins nor ends with one.
abbrev pub IsStripped : Text → Text → Type 0
IsStripped p t =
    (a : Text) × (z : Text) × (p ≡ a ++ (t ++ z))
    × All IsBlank a
    × All IsBlank z
    × ((c : ℕ) × (s : Text) × (t ≡ c ∷ s) × ¬ (IsBlank c))
    × ((s : Text) × (c : ℕ) × (t ≡ s ++ (c ∷ [])) × ¬ (IsBlank c))

-- The parts that are more than blanks, in order and without the blanks around them.
abbrev pub AreTokens : List Text → List Text → Type 0
AreTokens [] ts = ts ≡ []
AreTokens (p ∷ ps) ts =
    (All IsBlank p × AreTokens ps ts)
    ⊎ ((t : Text) × (rest : List Text) × (ts ≡ t ∷ rest) × IsStripped p t × AreTokens ps rest)

is_blank-IsBlank : (c : ℕ) → is_blank c ≡ true → IsBlank c
is_blank-IsBlank c h = ground (arith, h)

kept-IsBlank : (c : ℕ) → is_blank c ≡ false → ¬ (IsBlank c)
kept-IsBlank c h (inl e) = ground (arith, h, e)
kept-IsBlank c h (inr e) = ground (arith, h, e)

first_kept-split :
    (s : Text)
    → ((first_kept s ≡ none) × All IsBlank s)
      ⊎ ((a : Text) × (c : ℕ) × (r : Text) × (s ≡ a ++ (c ∷ r))
          × All IsBlank a
          × (is_blank c ≡ false)
          × (first_kept s ≡ some (length a)))
unfolding first_kept
first_kept-split [] = inl (refl, tt)
first_kept-split (x ∷ s) = elim (Bool-cases (is_blank x)) [
  | inr kept ↦ inr ([], x, s, refl, tt, kept, rw kept refl)
  | inl blank ↦ elim (first_kept-split s) [
    | inl (out, all) ↦ inl (rw (blank, out) refl, (is_blank-IsBlank x blank, all))
    | inr (a, c, r, e, all, kept, found) ↦
        inr
          (x ∷ a, c, r, ap (◌∷◌ x) e, (is_blank-IsBlank x blank, all), kept, rw (blank, found) refl)
  ]
]

last_kept-split :
    (s : Text)
    → ((last_kept s ≡ none) × All IsBlank s)
      ⊎ ((m : Text) × (c : ℕ) × (z : Text) × (s ≡ m ++ (c ∷ z))
          × All IsBlank z
          × (is_blank c ≡ false)
          × (last_kept s ≡ some (length m)))
unfolding last_kept
last_kept-split [] = inl (refl, tt)
last_kept-split (x ∷ s) = elim (last_kept-split s) [
  | inr (m, c, z, e, all, kept, found) ↦ inr (x ∷ m, c, z, ap (◌∷◌ x) e, all, kept, rw found refl)
  | inl (out, all) ↦ elim (Bool-cases (is_blank x)) [
    | inl blank ↦ inl (rw (out, blank) refl, (is_blank-IsBlank x blank, all))
    | inr kept ↦ inr ([], x, s, refl, all, kept, rw (out, kept) refl)
  ]
]

last_kept-append :
    (a s : Text) (j : ℕ) → last_kept s ≡ some j → last_kept (a ++ s) ≡ some (length a + j)
unfolding last_kept
last_kept-append [] s j h = h ∙ ap some (omega arith)
last_kept-append (x ∷ a) s j h = rw (last_kept-append a s j h) (ap some (omega arith))

first_of :
    (m : Text) (c d : ℕ) (r z : Text) → c ∷ r ≡ m ++ (d ∷ z) → (s : Text) × (m ++ (d ∷ []) ≡ c ∷ s)
first_of [] c d r z e = ([], cc)
first_of (x ∷ m) c d r z e = (m ++ (d ∷ []), cc)

-- `strip` gives nothing for blanks, and else the text that they stand around.
pub strip-IsStripped :
    (p : Text)
    → ((strip p ≡ none) × All IsBlank p) ⊎ ((t : Text) × (strip p ≡ some t) × IsStripped p t)
unfolding strip
strip-IsStripped p = elim (first_kept-split p) [
  | inl (out, all) ↦ inl (rw (out, strip) refl, all)
  | inr (a, c, r, e, before, kept, first) ↦ elim (last_kept-split (c ∷ r)) [
    | inl (out, (blank, all)) ↦ absurd (kept-IsBlank c kept blank)
    | inr (m, d, z, e', behind, kept', last) ↦
        let placed : last_kept p ≡ some (length a + length m) =
          ap last_kept e ∙ last_kept-append a (c ∷ r) (length m) last in
        let rest : drop (length a) p ≡ c ∷ r =
          ap (drop (length a)) e ∙ drop_at a (c ∷ r) (length a) 0 (omega arith) in
        let token : Text = m ++ (d ∷ []) in
        let whole : c ∷ r ≡ token ++ z = e' ∙ sym (append_assoc m (d ∷ []) z) in
        let cut : take (length a + length m - length a + 1) (c ∷ r) ≡ token =
          ap (take (length a + length m - length a + 1)) whole
          ∙ take_at token z (length a + length m - length a + 1)
              (omega (arith, length-append m (d ∷ []))) in
        let (s, begins) = first_of m c d r z e' in
        inr (
          token,
          rw (first, strip, placed, rest, cut) refl,
          (
            a,
            z,
            e ∙ ap (◌++◌ a) whole,
            before,
            behind,
            (c, s, begins, kept-IsBlank c kept),
            (m, d, refl, kept-IsBlank d kept'),
          ),
        )
  ]
]

strip_all-AreTokens : (ps : List Text) → AreTokens ps (strip_all ps)
unfolding strip_all
strip_all-AreTokens [] = refl
strip_all-AreTokens (p ∷ ps) =
    let rest = strip_all-AreTokens ps in
    elim (strip-IsStripped p) [
      | inl (out, blanks) ↦ rw out (inl (blanks, rest))
      | inr (t, found, stripped) ↦ rw found (inr (t, strip_all ps, refl, stripped, rest))
    ]

-- The loop over a Connection field gives, for each part of its value between the commas that is
-- more than blanks, in order, that part without the spaces and tabs around it, which neither begins
-- nor ends with one; and nothing else.
pub connection_tokens-AreTokens : (value : Text) → AreTokens (split value) (connection_tokens value)
connection_tokens-AreTokens value =
    subst (AreTokens (split value)) (sym (connection_tokens-split value))
      (strip_all-AreTokens (split value))
