-- ===== src/Cache/Refines/Calls.antt =====
-- Each call of the cache does what the specification does to the items, and none is undefined.
use eventedge.Base.{
  if◌then◌else◌, true, false, lookup-erase-none, ==_iff, length-erase, assign, ℕ, ◌+◌, ◌<◌, ◌≡◌,
  refl, sym, ◌∙◌, inl, inr, List, [], ◌∷◌, Option, none, some, Text, Text-discrete, length, lookup,
  erase, IsDistinct, ℕ_discrete, arith, ok, Option-cases, Bool-cases, ◌==◌, leb, lookup-cons_ne,
  ne_of_lookup, erase-cons_ne,
}
use eventedge.Cache.Store.{
  Node, Entry, ResponseCache, emplace, get, put, make_room, back, pop_back, erase_node,
  move_to_front,
}
use eventedge.Cache.Spec.{Item, Items, drop_last, read, write}
use eventedge.Cache.Refines.Chain.{Chain, entry_at}
use eventedge.Cache.Refines.Relation.{
  Represents, find, Represents-lookup, Represents-erase, Represents-touch, Represents-assign,
  Represents-emplace,
}

module _ {R : Type 0} where
  -- The last node, its item and its entry, as `back` and `pop_back` find them.
  pub record Last (E : Text → Option (Entry R)) (ns : List Node) (is : Items R) : Type 0 where
    pub key : Text
    pub item : Item R
    pub address : ℕ
    pub stored : lookup Text-discrete key is ≡ some item
    pub points : E key ≡ some (entry_at address item)
    pub linked : lookup ℕ_discrete address ns ≡ some key
    pub read_back : back ns ≡ ok key
    pub popped : pop_back ns ≡ ok (erase ℕ_discrete address ns)
    pub dropped : drop_last is ≡ erase Text-discrete key is

  Last-cons :
      (E : Text → Option (Entry R)) (a : ℕ) (k : Text) (n : Node) (ns : List Node) (j : Text)
      (i : Item R) (x : Text × Item R) (is : Items R)
      → Last E (n ∷ ns) (x ∷ is)
      → lookup ℕ_discrete a (n ∷ ns) ≡ none
      → lookup Text-discrete j (x ∷ is) ≡ none
      → Last E ((a, k) ∷ n ∷ ns) ((j, i) ∷ x ∷ is)
  unfolding back pop_back drop_last
  Last-cons E a k n ns j i x is l free new =
      let apart = ne_of_lookup Text-discrete j l.key (x ∷ is) new l.stored in
      let away = ne_of_lookup ℕ_discrete a l.address (n ∷ ns) free l.linked in
      record {
        key = l.key;
        item = l.item;
        address = l.address;
        stored = lookup-cons_ne Text-discrete j l.key i (x ∷ is) (λ e. apart (sym e)) ∙ l.stored;
        points = l.points;
        linked = lookup-cons_ne ℕ_discrete a l.address k (n ∷ ns) (λ e. away (sym e)) ∙ l.linked;
        read_back = l.read_back;
        popped = rw (l.popped, erase-cons_ne ℕ_discrete a l.address k (n ∷ ns) away);
        dropped = rw (l.dropped, erase-cons_ne Text-discrete j l.key i (x ∷ is) apart);
      }

  pub Chain-Last :
      (E : Text → Option (Entry R)) (ns : List Node) (is : Items R)
      → Chain E ns is
      → IsDistinct ℕ_discrete ns
      → IsDistinct Text-discrete is
      → 0 < length is
      → Last E ns is
  unfolding lookup back pop_back drop_last erase
  Chain-Last E [] [] c d d' h = elim h [ ]
  Chain-Last E [] (x ∷ is) c d d' h = absurd c
  Chain-Last E (n ∷ ns) [] c d d' h = absurd c
  Chain-Last E ((a, k) ∷ []) ((j, i) ∷ []) c d d' h = record {
    key = k;
    item = i;
    address = a;
    stored = ground (arith, c.0);
    points = ground (arith, c.0, c.1);
    linked = ground arith;
    read_back = refl;
    popped = ground arith;
    dropped = ground (arith, c.0);
  }
  Chain-Last E ((a, k) ∷ []) ((j, i) ∷ x ∷ is) c d d' h = absurd c.2
  Chain-Last E ((a, k) ∷ n ∷ ns) ((j, i) ∷ []) c d d' h = absurd c.2
  Chain-Last E ((a, k) ∷ n ∷ ns) ((j, i) ∷ x ∷ is) c d d' h =
      Last-cons E a k n ns j i x is (Chain-Last E (n ∷ ns) (x ∷ is) c.2 d.1 d'.1 (omega arith)) d.0
        d'.0

  get-miss :
      (now : ℕ) (key : Text) (c : ResponseCache R)
      → find c key ≡ none
      → get now key c ≡ ok (c, none)
  unfolding get
  get-miss now key c e = rw (e, get)

  module _ (now : ℕ) (key : Text) (i : Item R) (a : ℕ) (c : ResponseCache R)
      (at : find c key ≡ some (entry_at a i)) (node : lookup ℕ_discrete a c.lru ≡ some key) where
    erase-linked : erase_node a c.lru ≡ ok (erase ℕ_discrete a c.lru)
    unfolding erase_node
    erase-linked = rw (node, erase_node)

    move-linked : move_to_front a c.lru ≡ ok ((a, key) ∷ erase ℕ_discrete a c.lru)
    unfolding move_to_front
    move-linked = rw (node, move_to_front)

    get-old :
        leb i.expires_at now ≡ true
        → get now key c
          ≡ ok (
            record c {
              lru = erase ℕ_discrete a c.lru;
              entries = erase Text-discrete key c.entries;
            },
            none,
          )
    unfolding get
    get-old old = rw (at, get, old, erase-linked)

    get-live :
        leb i.expires_at now ≡ false
        → get now key c
          ≡ ok (record c { lru = (a, key) ∷ erase ℕ_discrete a c.lru }, some i.response)
    unfolding get
    get-live live = rw (at, get, live, move-linked)

    put-known :
        (response : R)
        → put now key response c
          ≡ ok (record c {
            lru = (a, key) ∷ erase ℕ_discrete a c.lru;
            entries =
                assign Text-discrete key
                  (record { response = response; expires_at = now + c.ttl; lru_position = a })
                  c.entries;
          })
    unfolding put
    put-known response = rw (at, put, move-linked)

  -- `get` is never undefined: it returns what the items hold, and leaves the cache for the items
  -- that are left, with the same options.
  pub get-read :
      (now : ℕ) (key : Text) (c : ResponseCache R) (items : Items R)
      → Represents c items
      → (c' : ResponseCache R) × (get now key c ≡ ok (c', (read now key items).1))
        × Represents c' (read now key items).0
        × (c'.options ≡ c.options)
  unfolding read
  get-read now key c items rep = elim (Option-cases (lookup Text-discrete key items)) [
    | inl miss ↦ rw (miss, read) (c, get-miss now key c (rep.complete key miss), rep, refl)
    | inr (i, hit) ↦
        let (a, at, node) = Represents-lookup c items key i rep hit in
        elim (Bool-cases (leb i.expires_at now)) [
          | inl old ↦
              rw (hit, read, old)
                (
                  record c {
                    lru = erase ℕ_discrete a c.lru;
                    entries = erase Text-discrete key c.entries;
                  },
                  get-old now key i a c at node old,
                  Represents-erase c items key i rep hit a at node,
                  refl,
                )
          | inr live ↦
              rw (hit, read, live)
                (
                  record c { lru = (a, key) ∷ erase ℕ_discrete a c.lru },
                  get-live now key i a c at node live,
                  Represents-touch c items key i rep hit a at node,
                  refl,
                )
        ]
  ]

  -- Where there is no room, the last node goes, and its item and entry with it.
  make_room-Represents :
      (c : ResponseCache R) (items : Items R)
      → Represents c items
      → (c' : ResponseCache R) × (make_room c ≡ ok c')
        × Represents c' (if length items == c.capacity then drop_last items else items)
        × (length (if length items == c.capacity then drop_last items else items) < c.capacity)
        × (c'.options ≡ c.options)
        × ((k : Text)
            → lookup Text-discrete k items ≡ none
            → lookup Text-discrete k (if length items == c.capacity then drop_last items else items)
              ≡ none)
  unfolding make_room
  make_room-Represents c items rep = elim (Bool-cases (length items == c.capacity)) [
    | inl full ↦
        let e : length items ≡ c.capacity = (==_iff (length items) c.capacity).0 full in
        let l =
          Chain-Last (find c) c.lru items rep.chain rep.nodes_distinct rep.items_distinct
            (omega (arith, rep.positive)) in
        rw (full, l.dropped)
          (
            record c {
              lru = erase ℕ_discrete l.address c.lru;
              entries = erase Text-discrete l.key c.entries;
            },
            rw (rep.same_size, full, make_room, l.read_back, l.popped),
            Represents-erase c items l.key l.item rep l.stored l.address l.points l.linked,
            omega (arith, length-erase Text-discrete l.key items l.item l.stored),
            refl,
            λ k h. lookup-erase-none Text-discrete k l.key items h,
          )
    | inr room ↦
        rw room
          (c, rw (rep.same_size, room, make_room), rep, ground (arith, rep.bounded), refl, λ k h. h)
  ]

  -- `put` is never undefined: it writes the response with its new expiry time to the items.
  pub put-write :
      (now : ℕ) (key : Text) (response : R) (c : ResponseCache R) (items : Items R)
      → Represents c items
      → (c' : ResponseCache R) × (put now key response c ≡ ok c')
        × Represents c'
            (write c.capacity key (record { response = response; expires_at = now + c.ttl }) items)
        × (c'.options ≡ c.options)
  unfolding write put emplace
  put-write now key response c items rep = elim (Option-cases (lookup Text-discrete key items)) [
    | inl miss ↦
        let new : Item R = record { response = response; expires_at = now + c.ttl } in
        let (c', made, roomy, room, same, absent) = make_room-Represents c items rep in
        rw (miss, write)
          (
            emplace key response (now + c.ttl) c',
            rw (rep.complete key miss, put, made),
            Represents-emplace c' _ key new roomy (absent key miss) (rw same room),
            same,
          )
    | inr (i, hit) ↦
        let (a, at, node) = Represents-lookup c items key i rep hit in
        rw (hit, write)
          (
            _,
            put-known now key i a c at node response,
            Represents-assign c items key i rep hit a at node _,
            refl,
          )
  ]
