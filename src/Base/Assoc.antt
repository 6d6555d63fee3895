-- ===== src/Base/Assoc.antt =====
-- Association lists with at most one entry for a key, as `std::unordered_map` keeps them, and as
-- a `std::list` keeps its nodes under their addresses.
use Prim.Native.Nat.{◌+◌}
use mathlib.Core.List.{List, [], ◌∷◌}
use mathlib.Core.Logic.{◌≢◌, ite}
use mathlib.Core.Option.{Option, none, some}
use mathlib.Core.Path.{◌≡◌, refl, ◌∙◌}
use native.Mathlib.Omega.{arith}
use eventedge.Base.Lists.{length}

module _ {ℓ} {K V : Type ℓ} (dec : Discrete K) where
  unfoldable pub lookup : K → List (K × V) → Option V
  lookup k [] = none
  lookup k ((j, v) ∷ l) = ite (dec j k) (some v) (lookup k l)

  unfoldable pub erase : K → List (K × V) → List (K × V)
  erase k [] = []
  erase k ((j, v) ∷ l) = ite (dec j k) l ((j, v) ∷ erase k l)

  -- A write through an iterator to the entry of `k`.
  unfoldable pub assign : K → V → List (K × V) → List (K × V)
  assign k w [] = []
  assign k w ((j, v) ∷ l) = ite (dec j k) ((j, w) ∷ l) ((j, v) ∷ assign k w l)

  -- No key stands twice.
  abbrev pub IsDistinct : List (K × V) → Type ℓ
  IsDistinct [] = Unit
  IsDistinct ((k, v) ∷ l) = (lookup k l ≡ none) × IsDistinct l

  pub lookup-cons_self : (k : K) (v : V) (l : List (K × V)) → lookup k ((k, v) ∷ l) ≡ some v
  unfolding lookup
  lookup-cons_self k v l = ground arith

  pub lookup-cons_ne :
      (k q : K) (v : V) (l : List (K × V)) → q ≢ k → lookup q ((k, v) ∷ l) ≡ lookup q l
  unfolding lookup
  lookup-cons_ne k q v l h = ground arith

  -- A key that a longer list misses is another key, and its tail misses it too.
  pub lookup-cons_none :
      (k q : K) (v : V) (l : List (K × V))
      → lookup q ((k, v) ∷ l) ≡ none
      → (q ≢ k) × (lookup q l ≡ none)
  unfolding lookup
  lookup-cons_none k q v l h = (λ e. ground arith, ground arith)

  pub ne_of_lookup :
      (k q : K) (l : List (K × V)) {v : V} → lookup k l ≡ none → lookup q l ≡ some v → k ≢ q
  ne_of_lookup k q l h f = λ e. cc

  pub erase-cons_ne :
      (k q : K) (v : V) (l : List (K × V)) → k ≢ q → erase q ((k, v) ∷ l) ≡ (k, v) ∷ erase q l
  unfolding erase
  erase-cons_ne k q v l h = ground arith

  pub lookup-erase_ne : (k q : K) (l : List (K × V)) → q ≢ k → lookup q (erase k l) ≡ lookup q l
  unfolding lookup erase
  lookup-erase_ne k q [] h = refl
  lookup-erase_ne k q ((j, v) ∷ l) h = ground (arith, lookup-erase_ne k q l)

  pub lookup-erase_self : (k : K) (l : List (K × V)) → IsDistinct l → lookup k (erase k l) ≡ none
  unfolding lookup erase
  lookup-erase_self k [] d = refl
  lookup-erase_self k ((j, v) ∷ l) d = ground (arith, lookup-erase_self k l d.1)

  pub erase-IsDistinct : (k : K) (l : List (K × V)) → IsDistinct l → IsDistinct (erase k l)
  unfolding lookup erase
  erase-IsDistinct k [] d = d
  erase-IsDistinct k ((j, v) ∷ l) d =
      ground (arith, erase-IsDistinct k l d.1, lookup-erase_ne k j l)

  pub length-erase :
      (k : K) (l : List (K × V)) (v : V) → lookup k l ≡ some v → length (erase k l) + 1 ≡ length l
  unfolding lookup erase
  length-erase k [] u h = cc
  length-erase k ((j, v) ∷ l) u h = ground (arith, length-erase k l u)

  pub erase_absent : (k : K) (l : List (K × V)) → lookup k l ≡ none → erase k l ≡ l
  unfolding lookup erase
  erase_absent k [] h = refl
  erase_absent k ((j, v) ∷ l) h = ground (arith, erase_absent k l)

  pub lookup-erase-none :
      (k q : K) (l : List (K × V)) → lookup k l ≡ none → lookup k (erase q l) ≡ none
  lookup-erase-none k q l h = elim (dec k q) [
    | yes e ↦ rw (← e, erase_absent k l h) h
    | no ne ↦ lookup-erase_ne q k l ne ∙ h
  ]

  pub lookup-assign_ne :
      (k q : K) (w : V) (l : List (K × V)) → q ≢ k → lookup q (assign k w l) ≡ lookup q l
  unfolding lookup assign
  lookup-assign_ne k q w [] h = refl
  lookup-assign_ne k q w ((j, v) ∷ l) h = ground (arith, lookup-assign_ne k q w l)

  pub lookup-assign_self :
      (k : K) (w : V) (l : List (K × V)) (v : V)
      → lookup k l ≡ some v
      → lookup k (assign k w l) ≡ some w
  unfolding lookup assign
  lookup-assign_self k w [] u h = cc
  lookup-assign_self k w ((j, v) ∷ l) u h = ground (arith, lookup-assign_self k w l u)

  pub length-assign : (k : K) (w : V) (l : List (K × V)) → length (assign k w l) ≡ length l
  unfolding assign
  length-assign k w [] = refl
  length-assign k w ((j, v) ∷ l) = ground (arith, length-assign k w l)

  pub assign-IsDistinct :
      (k : K) (w : V) (l : List (K × V)) → IsDistinct l → IsDistinct (assign k w l)
  unfolding lookup assign
  assign-IsDistinct k w [] d = d
  assign-IsDistinct k w ((j, v) ∷ l) d =
      ground (arith, assign-IsDistinct k w l d.1, lookup-assign_ne k j w l)
