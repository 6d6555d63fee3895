-- ===== src/Cache/Spec.antt =====
-- What the cache promises, with neither nodes nor addresses: a list of keys with their responses
-- and expiry times, the most recently used first.
use eventedge.Base.{
  ℕ, List, [], ◌∷◌, Option, none, some, Text, Text-discrete, length, lookup, erase, leb, ◌==◌,
  if◌then◌else◌,
}

pub record Item (R : Type 0) : Type 0 where
  pub response : R
  pub expires_at : ℕ

abbrev pub Items : Type 0 → Type 0
Items R = List (Text × Item R)

module _ {R : Type 0} where
  unfoldable pub drop_last : Items R → Items R
  drop_last [] = []
  drop_last (i ∷ []) = []
  drop_last (i ∷ i' ∷ is) = i ∷ drop_last (i' ∷ is)

  -- A hit that has not run out comes to the front; one that has is dropped.
  unfoldable pub read : ℕ → Text → Items R → Items R × Option R
  read now key items = elim (lookup Text-discrete key items) [
    | none ↦ (items, none)
    | some i ↦
        if leb i.expires_at now
        then (erase Text-discrete key items, none)
        else ((key, i) ∷ erase Text-discrete key items, some i.response)
  ]

  -- The new response stands in front; a full cache gives up its last item for a new key.
  unfoldable pub write : ℕ → Text → Item R → Items R → Items R
  write capacity key new items = elim (lookup Text-discrete key items) [
    | some i ↦ (key, new) ∷ erase Text-discrete key items
    | none ↦ (key, new) ∷ (if length items == capacity then drop_last items else items)
  ]
