-- ===== src/Cache/Store.antt =====
-- `ResponseCache`. The mutex makes each call one step. The clock's reading is an argument of `get`
-- and `put`; times are ticks that do not overflow. `lru_` is a linked list: a node is its address
-- and its key, the most recent first, and an iterator is an address, so that `erase` and `splice`
-- through an iterator whose node is gone are undefined, and so is `back` of the empty list.
use eventedge.Base.{
  ℕ, ◌+◌, List, [], ◌∷◌, Option, none, some, Text, Text-discrete, Outcome, ok, throw, undefined,
  invalid_argument, ◌>>=◌, length, lookup, erase, assign, leb, ◌==◌, if◌then◌else◌, ℕ_discrete,
}

pub record CacheOptions : Type 0 where
  pub capacity : ℕ
  pub ttl : ℕ

abbrev pub Node : Type 0
Node = ℕ × Text

pub record Entry (R : Type 0) : Type 0 where
  pub response : R
  pub expires_at : ℕ
  pub lru_position : ℕ

-- `next_node` is the address of the next node that the list allocates.
pub record ResponseCache (R : Type 0) : Type 0 where
  pub options : CacheOptions
  pub open options use *
  pub lru : List Node
  pub entries : List (Text × Entry R)
  pub next_node : ℕ

-- `lru_.erase(position)`
unfoldable pub erase_node : ℕ → List Node → Outcome (List Node)
erase_node position lru = elim (lookup ℕ_discrete position lru) [
  | none ↦ undefined
  | some key ↦ ok (erase ℕ_discrete position lru)
]

-- `lru_.splice(lru_.begin(), lru_, position)`
unfoldable pub move_to_front : ℕ → List Node → Outcome (List Node)
move_to_front position lru = elim (lookup ℕ_discrete position lru) [
  | none ↦ undefined
  | some key ↦ ok ((position, key) ∷ erase ℕ_discrete position lru)
]

-- `lru_.back()`
unfoldable pub back : List Node → Outcome Text
back [] = undefined
back ((position, key) ∷ []) = ok key
back (n ∷ n' ∷ lru) = back (n' ∷ lru)

-- `lru_.pop_back()`
unfoldable pub pop_back : List Node → Outcome (List Node)
pop_back [] = undefined
pop_back (n ∷ []) = ok []
pop_back (n ∷ n' ∷ lru) = do rest ← pop_back (n' ∷ lru); ok (n ∷ rest)

module _ {R : Type 0} where
  -- The constructor.
  unfoldable pub create : CacheOptions → Outcome (ResponseCache R)
  create o =
      if o.capacity == 0
      then throw invalid_argument
      else ok (record { options = o; lru = []; entries = []; next_node = 0 })

  unfoldable pub get : ℕ → Text → ResponseCache R → Outcome (ResponseCache R × Option R)
  get now key c = elim (lookup Text-discrete key c.entries) [
    | none ↦ ok (c, none)
    | some entry ↦
        if leb entry.expires_at now
        then (do
          lru ← erase_node entry.lru_position c.lru
          ok (record c { lru = lru; entries = erase Text-discrete key c.entries }, none))
        else (do
          lru ← move_to_front entry.lru_position c.lru
          ok (record c { lru = lru }, some entry.response))
  ]

  -- `if (entries_.size() == options_.capacity) …`
  unfoldable pub make_room : ResponseCache R → Outcome (ResponseCache R)
  make_room c =
      if length c.entries == c.capacity
      then (do
        last ← back c.lru
        lru ← pop_back c.lru
        ok (record c { lru = lru; entries = erase Text-discrete last c.entries }))
      else ok c

  -- `lru_.push_front(key)` and `entries_.emplace(…)`
  unfoldable pub emplace : Text → R → ℕ → ResponseCache R → ResponseCache R
  emplace key response expires_at c = record c {
    lru = (c.next_node, key) ∷ c.lru;
    entries =
        (key, record { response = response; expires_at = expires_at; lru_position = c.next_node })
        ∷ c.entries;
    next_node = c.next_node + 1;
  }

  unfoldable pub put : ℕ → Text → R → ResponseCache R → Outcome (ResponseCache R)
  put now key response c =
      let expires_at = now + c.ttl in
      elim (lookup Text-discrete key c.entries) [
        | some existing ↦ do
          lru ← move_to_front existing.lru_position c.lru
          ok (record c {
            lru = lru;
            entries =
                assign Text-discrete key
                  (record existing { response = response; expires_at = expires_at }) c.entries;
          })
        | none ↦ do roomy ← make_room c; ok (emplace key response expires_at roomy)
      ]

  abbrev pub size : ResponseCache R → ℕ
  size c = length c.entries
