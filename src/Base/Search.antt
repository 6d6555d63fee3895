-- ===== src/Base/Search.antt =====
-- Searching and cutting texts, as `std::string_view` does.
use Prim.Native.Nat.{ℕ, zero, suc, ◌+◌}
use mathlib.Core.Bool.{false}
use mathlib.Core.List.{[], ◌∷◌, ◌++◌}
use mathlib.Core.Logic.{◌⊎◌, inl, inr}
use mathlib.Core.Option.{Option, none, some}
use mathlib.Core.Path.{◌≡◌, refl, ap, ◌∙◌}
use native.Mathlib.Omega.{arith}
use eventedge.Base.Tests.{◌==◌, ltb, if◌then◌else◌, Bool-cases, ==_iff}
use eventedge.Base.Lists.{length, get_elem?, All}
use eventedge.Base.Outcomes.{Outcome, ok, throw, out_of_range}
use eventedge.Base.Bytes.{Text}

-- `find` and `rfind` of a byte; `none` is `npos`.
abbrev pub shift : Option ℕ → Option ℕ
shift none = none
shift (some i) = some (suc i)

unfoldable pub find : ℕ → Text → Option ℕ
find c [] = none
find c (x ∷ s) = if x == c then some 0 else shift (find c s)

unfoldable pub rfind : ℕ → Text → Option ℕ
rfind c [] = none
rfind c (x ∷ s) = elim (rfind c s) [
  | some i ↦ some (suc i)
  | none ↦ if x == c then some 0 else none
]

abbrev pub take : ℕ → Text → Text
take zero s = []
take (suc n) [] = []
take (suc n) (c ∷ s) = c ∷ take n s

abbrev pub drop : ℕ → Text → Text
drop zero s = s
drop (suc n) [] = []
drop (suc n) (c ∷ s) = drop n s

-- `substr(pos, count)` and `substr(pos)`
unfoldable pub substr : ℕ → ℕ → Text → Outcome Text
substr pos count s = if ltb (length s) pos then throw out_of_range else ok (take count (drop pos s))

unfoldable pub substr_from : ℕ → Text → Outcome Text
substr_from pos s = if ltb (length s) pos then throw out_of_range else ok (drop pos s)

-- The byte does not stand in the text.
abbrev pub Lacks : ℕ → Text → Type 0
Lacks c = All (λ x. (x == c) ≡ false)

-- A text at its first, or at its last, occurrence of a byte.
pub find-split :
    (c : ℕ) (s : Text)
    → ((find c s ≡ none) × Lacks c s)
      ⊎ ((a : Text) × (b : Text) × (s ≡ a ++ c ∷ b) × Lacks c a × (find c s ≡ some (length a)))
unfolding find
find-split c [] = inl (refl, tt)
find-split c (x ∷ s) = elim (Bool-cases (x == c)) [
  | inl here ↦ inr ([], s, ap (λ t. t ∷ s) ((==_iff x c).0 here), tt, rw here)
  | inr not_here ↦ elim (find-split c s) [
    | inl (none_left, lacks) ↦ inl (rw (not_here, none_left), (not_here, lacks))
    | inr (a, b, e, lacks, found) ↦
        inr (x ∷ a, b, ap (◌∷◌ x) e, (not_here, lacks), rw (not_here, found))
  ]
]

pub rfind-split :
    (c : ℕ) (s : Text)
    → ((rfind c s ≡ none) × Lacks c s)
      ⊎ ((a : Text) × (b : Text) × (s ≡ a ++ c ∷ b) × Lacks c b × (rfind c s ≡ some (length a)))
unfolding rfind
rfind-split c [] = inl (refl, tt)
rfind-split c (x ∷ s) = elim (rfind-split c s) [
  | inr (a, b, e, lacks, found) ↦ inr (x ∷ a, b, ap (◌∷◌ x) e, lacks, rw (found, rfind))
  | inl (none_left, lacks) ↦ elim (Bool-cases (x == c)) [
    | inl here ↦
        inr ([], s, ap (λ t. t ∷ s) ((==_iff x c).0 here), lacks, rw (none_left, rfind, here))
    | inr not_here ↦ inl (rw (none_left, rfind, not_here), (not_here, lacks))
  ]
]

pub find-append : (c : ℕ) (a b : Text) → Lacks c a → find c (a ++ c ∷ b) ≡ some (length a)
unfolding find
find-append c [] b h = ground arith
find-append c (x ∷ a) b h = rw (h.0, find-append c a b h.1)

pub rfind_lacking : (c : ℕ) (s : Text) → Lacks c s → rfind c s ≡ none
unfolding rfind
rfind_lacking c [] h = refl
rfind_lacking c (x ∷ s) h = rw (rfind_lacking c s h.1, rfind, h.0)

pub rfind-append : (c : ℕ) (a b : Text) → Lacks c b → rfind c (a ++ c ∷ b) ≡ some (length a)
unfolding rfind
rfind-append c [] b h = rw (rfind_lacking c b h, rfind) (ground arith)
rfind-append c (x ∷ a) b h = rw (rfind-append c a b h, rfind)

pub take-append : (a b : Text) → take (length a) (a ++ b) ≡ a
take-append [] b = refl
take-append (x ∷ a) b = ap (◌∷◌ x) (take-append a b)

-- The same with the place given by an equation.
pub take_at : (a b : Text) (i : ℕ) → i ≡ length a → take i (a ++ b) ≡ a
take_at a b i e = ap (λ t. take t (a ++ b)) e ∙ take-append a b

pub drop_at : (a b : Text) (i j : ℕ) → i ≡ length a + j → drop i (a ++ b) ≡ drop j b
drop_at [] b i j e = ap (λ t. drop t b) (omega arith)
drop_at (x ∷ a) b zero j e = absurd (omega arith)
drop_at (x ∷ a) b (suc i) j e = drop_at a b i j (omega arith)

pub get_elem?_at : (a b : Text) (i j : ℕ) → i ≡ length a + j → get_elem? (a ++ b) i ≡ get_elem? b j
get_elem?_at [] b i j e = ap (get_elem? b) (omega arith)
get_elem?_at (x ∷ a) b zero j e = absurd (omega arith)
get_elem?_at (x ∷ a) b (suc i) j e = get_elem?_at a b i j (omega arith)

-- Two ways to cut a text at the same place are the same.
pub append-injective : (a b c d : Text) → a ++ b ≡ c ++ d → length a ≡ length c → (a ≡ c) × (b ≡ d)
append-injective [] b [] d e h = (refl, e)
append-injective [] b (y ∷ c) d e h = absurd (omega arith)
append-injective (x ∷ a) b [] d e h = absurd (omega arith)
append-injective (x ∷ a) b (y ∷ c) d e h =
    let (p, q) = append-injective a b c d (cc) (omega arith) in (cc, q)
