-- ===== src/Cache/Refines/Creation.antt =====
-- A new cache.
use eventedge.Base.{
  ==_iff, ◌<◌, ◌≡◌, refl, ◌⊎◌, inl, inr, [], lookup, arith, ok, throw, invalid_argument, Bool-cases,
  ◌==◌,
}
use eventedge.Cache.Store.{ResponseCache, CacheOptions, create}
use eventedge.Cache.Refines.Relation.{Represents}

module _ {R : Type 0} where
  abbrev pub empty_cache : CacheOptions → ResponseCache R
  empty_cache o = record { options = o; lru = []; entries = []; next_node = 0 }

  pub empty_cache-Represents : (o : CacheOptions) → 0 < o.capacity → Represents (empty_cache o) []
  unfolding lookup
  empty_cache-Represents o h = record {
    chain = tt;
    nodes_distinct = tt;
    entries_distinct = tt;
    items_distinct = tt;
    complete = λ k h. refl;
    same_size = refl;
    fresh = tt;
    positive = h;
    bounded = omega arith;
  }

  -- The constructor refuses no room at all, and else makes an empty cache.
  pub create-Represents :
      (o : CacheOptions)
      → ((o.capacity ≡ 0) × (create {R = R} o ≡ throw invalid_argument))
        ⊎ ((c : ResponseCache R) × (create o ≡ ok c) × Represents c [] × (c.options ≡ o))
  unfolding create
  create-Represents o = elim (Bool-cases (o.capacity == 0)) [
    | inl none_left ↦ inl ((==_iff o.capacity 0).0 none_left, rw none_left)
    | inr some_left ↦
        inr (empty_cache o, rw some_left, empty_cache-Represents o (ground arith), refl)
  ]
