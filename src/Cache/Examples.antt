-- ===== src/Cache/Examples.antt =====
-- The cache on small histories, with numbers for responses.
use eventedge.Base.{
  ℕ, ◌≡◌, ◌≤◌, ◌≢◌, refl, sym, ◌⊎◌, List, [], ◌∷◌, none, some, codes, ok, Text, Text-discrete, leb,
  if◌then◌else◌, lookup, erase, assign, ℕ_discrete, arith, ◌>>=◌,
}
use eventedge.Cache.Store.{
  ResponseCache, CacheOptions, create, get, put, make_room, emplace, back, pop_back, move_to_front,
  erase_node, size,
}
use eventedge.Cache.Spec.{Item, read, write, drop_last}
use eventedge.Cache.Refines.{Represents}
use eventedge.Cache.Laws.{
  Call, gets, puts, run, run_items, run-run_items, fetch, fetch-put, fetch-put_ne, IsEvicted,
}

abbrev a : Text
a = codes "/a"

abbrev b : Text
b = codes "/b"

abbrev c : Text
c = codes "/c"

abbrev room_for_two : CacheOptions
room_for_two = record { capacity = 2; ttl = 100 }

-- `a` is read and so `b` is the least recently used when `c` comes; `a` runs out at 100.
abbrev history : List (ℕ × Call ℕ)
history =
    (0, puts a 1)
    ∷ (1, puts b 2)
    ∷ (2, gets a)
    ∷ (3, puts c 3)
    ∷ (4, gets b)
    ∷ (5, gets a)
    ∷ (100, gets a)
    ∷ []

answers : (run_items {R = ℕ} room_for_two [] history).1 ≡ some 1 ∷ none ∷ some 1 ∷ none ∷ []
unfolding run_items read write drop_last Text-discrete lookup erase ℕ_discrete
answers = refl

run-run_items_example :
    (x : ResponseCache ℕ) × (y : ResponseCache ℕ) × (create room_for_two ≡ ok x)
    × (run x history ≡ ok (y, (run_items room_for_two [] history).1))
    × Represents y (run_items room_for_two [] history).0
    × (size y ≤ 2)
run-run_items_example = run-run_items room_for_two history (omega arith)

-- The code gives the same answers.
code_answers :
    (run (record { options = room_for_two; lru = []; entries = []; next_node = 0 }) history >>= λ r.
    ok r.1)
    ≡ ok (some 1 ∷ none ∷ some 1 ∷ none ∷ [])
unfolding run get put make_room emplace back pop_back move_to_front erase_node Text-discrete lookup
    erase assign ℕ_discrete
code_answers = refl

-- A cache of capacity 1 that holds `a` until 100.
abbrev item_a : Item ℕ
item_a = record { response = 1; expires_at = 100 }

abbrev full : ResponseCache ℕ
full = record {
  options = record { capacity = 1; ttl = 100 };
  lru = (0, a) ∷ [];
  entries = (a, record { response = 1; expires_at = 100; lru_position = 0 }) ∷ [];
  next_node = 1;
}

full-Represents : Represents full ((a, item_a) ∷ [])
unfolding lookup Text-discrete ℕ_discrete
full-Represents = record {
  chain = (refl, refl, tt);
  nodes_distinct = (refl, tt);
  entries_distinct = (refl, tt);
  items_distinct = (refl, tt);
  complete = λ k h. ground arith;
  same_size = refl;
  fresh = (omega arith, tt);
  positive = omega arith;
  bounded = omega arith;
}

fetch-put_example :
    (x : ResponseCache ℕ) × (put 50 b 2 full ≡ ok x)
    × (fetch 60 b x ≡ ok (if leb 150 60 then none else some 2))
fetch-put_example = fetch-put 50 60 b 2 full ((a, item_a) ∷ []) full-Represents

b-ne-a : b ≢ a
b-ne-a e = ground (arith, e)

fetch-put_ne_example :
    (x : ResponseCache ℕ) × (put 50 b 2 full ≡ ok x)
    × ((fetch 60 a x ≡ fetch 60 a full) ⊎ (IsEvicted a b full × (fetch 60 a x ≡ ok none)))
fetch-put_ne_example =
    fetch-put_ne 50 60 b a 2 full ((a, item_a) ∷ []) full-Represents (λ e. b-ne-a (sym e))
