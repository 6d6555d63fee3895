-- ===== src/Cache/Refines/Chain.antt =====
-- The linked list beside the list of items, and the entries that point into it.
use mathlib.Core.Logic.{if_pos, if_neg}
use eventedge.Base.{
  ℕ, suc, ◌≡◌, ◌≢◌, refl, ap, ◌∙◌, List, [], ◌∷◌, Option, none, some, Text, Text-discrete, length,
  lookup, erase, IsDistinct, ℕ_discrete, arith,
}
use eventedge.Cache.Store.{Node, Entry}
use eventedge.Cache.Spec.{Item, Items}

module _ {R : Type 0} where
  -- The entry of an item whose node is at the address.
  abbrev pub entry_at : ℕ → Item R → Entry R
  entry_at a i = record { response = i.response; expires_at = i.expires_at; lru_position = a }

  -- Node by node: the same key as the item, and the entry of the key points at the node.
  abbrev pub Chain : (Text → Option (Entry R)) → List Node → Items R → Type 0
  Chain E [] [] = Unit {0}
  Chain E [] (i ∷ is) = ⊥
  Chain E (n ∷ ns) [] = ⊥
  Chain E ((a, k) ∷ ns) ((j, i) ∷ is) = (k ≡ j) × (E j ≡ some (entry_at a i)) × Chain E ns is

  module _ (E : Text → Option (Entry R)) where
    pub Chain-lookup :
        (ns : List Node) (is : Items R) (k : Text) (i : Item R)
        → Chain E ns is
        → IsDistinct ℕ_discrete ns
        → lookup Text-discrete k is ≡ some i
        → (a : ℕ) × (E k ≡ some (entry_at a i)) × (lookup ℕ_discrete a ns ≡ some k)
    unfolding lookup
    Chain-lookup [] [] k i c d h = cc
    Chain-lookup [] (x ∷ is) k i c d h = absurd c
    Chain-lookup (n ∷ ns) [] k i c d h = cc
    Chain-lookup ((a, k') ∷ ns) ((j, i') ∷ is) k i c d h = elim (Text-discrete j k) [
      | yes e ↦ (a, ground (arith, c.0, c.1), ground (arith, c.0))
      | no ne ↦
          let (a', at, found) = Chain-lookup ns is k i c.2 d.1 (ground arith) in
          (a', at, ground (arith, d.0, found))
    ]

    pub Chain-erase :
        (ns : List Node) (is : Items R) (k : Text) (i : Item R) (a : ℕ)
        → Chain E ns is
        → IsDistinct ℕ_discrete ns
        → lookup Text-discrete k is ≡ some i
        → E k ≡ some (entry_at a i)
        → lookup ℕ_discrete a ns ≡ some k
        → Chain E (erase ℕ_discrete a ns) (erase Text-discrete k is)
    unfolding lookup erase
    Chain-erase [] [] k i a c d h at found = tt
    Chain-erase [] (x ∷ is) k i a c d h at found = absurd c
    Chain-erase (n ∷ ns) [] k i a c d h at found = cc
    Chain-erase ((a', k') ∷ ns) ((j, i') ∷ is) k i a c d h at found = elim (Text-discrete j k) [
      | yes e ↦
          let same : a' ≡ a = ground (arith, c.1) in
          rw (if_pos (Text-discrete j k) e _ _, if_pos (ℕ_discrete a' a) same _ _) c.2
      | no ne ↦
          let later : lookup Text-discrete k is ≡ some i = ground arith in
          let (a2, at2, found2) = Chain-lookup ns is k i c.2 d.1 later in
          let apart : a' ≢ a = λ e. ground (arith, d.0) in
          rw (if_neg (Text-discrete j k) ne _ _, if_neg (ℕ_discrete a' a) apart _ _)
            (c.0, c.1, Chain-erase ns is k i a c.2 d.1 later at (ground arith))
    ]

    pub Chain-length : (ns : List Node) (is : Items R) → Chain E ns is → length ns ≡ length is
    Chain-length [] [] c = refl
    Chain-length [] (x ∷ is) c = absurd c
    Chain-length (n ∷ ns) [] c = absurd c
    Chain-length ((a, k) ∷ ns) ((j, i) ∷ is) c = ap suc (Chain-length ns is c.2)

  -- Entries of other keys do not matter.
  pub Chain-agree :
      (E E' : Text → Option (Entry R)) (k : Text) (ns : List Node) (is : Items R)
      → ((j : Text) → j ≢ k → E' j ≡ E j)
      → lookup Text-discrete k is ≡ none
      → Chain E ns is
      → Chain E' ns is
  unfolding lookup
  Chain-agree E E' k [] [] agree h c = tt
  Chain-agree E E' k [] (x ∷ is) agree h c = absurd c
  Chain-agree E E' k (n ∷ ns) [] agree h c = absurd c
  Chain-agree E E' k ((a, k') ∷ ns) ((j, i) ∷ is) agree h c =
      (c.0, agree j (ground arith) ∙ c.1, Chain-agree E E' k ns is agree (ground arith) c.2)
