-- ===== src/Cache/Refines/Relation.antt =====
-- The relation between a cache and its items, and how the moves of the code keep it.
use eventedge.Base.{
  ℕ, ◌+◌, ◌<◌, ◌≤◌, ◌≡◌, ◌≢◌, refl, sym, ◌∙◌, List, [], ◌∷◌, Option, none, some, Text,
  Text-discrete, length, lookup, erase, assign, IsDistinct, ℕ_discrete, All, arith, lookup-erase_ne,
  lookup-erase_self, erase-IsDistinct, length-erase, lookup-assign_ne, lookup-assign_self,
  length-assign, assign-IsDistinct, lookup-cons_self, lookup-cons_ne, lookup-cons_none,
}
use eventedge.Cache.Store.{Node, Entry, ResponseCache, emplace}
use eventedge.Cache.Spec.{Item, Items}
use eventedge.Cache.Refines.Chain.{Chain, entry_at, Chain-lookup, Chain-erase, Chain-agree}

-- The list has allocated the addresses under the bound.
abbrev pub IsBelow : ℕ → List Node → Type 0
IsBelow m = All (λ n. n.0 < m)

IsBelow-erase : (m a : ℕ) (ns : List Node) → IsBelow m ns → IsBelow m (erase ℕ_discrete a ns)
unfolding erase
IsBelow-erase m a [] h = h
IsBelow-erase m a ((b, k) ∷ ns) h = ground (arith, IsBelow-erase m a ns h.1)

lookup-fresh : (m : ℕ) (ns : List Node) → IsBelow m ns → lookup ℕ_discrete m ns ≡ none
unfolding lookup
lookup-fresh m [] h = refl
lookup-fresh m ((b, k) ∷ ns) h = ground (arith, lookup-fresh m ns h.1)

IsBelow-raise : (m : ℕ) (ns : List Node) → IsBelow m ns → IsBelow (m + 1) ns
IsBelow-raise m [] h = h
IsBelow-raise m ((b, k) ∷ ns) h = (omega arith, IsBelow-raise m ns h.1)

lookup-bound :
    (m a : ℕ) (k : Text) (ns : List Node) → IsBelow m ns → lookup ℕ_discrete a ns ≡ some k → a < m
unfolding lookup
lookup-bound m a k [] h e = cc
lookup-bound m a k ((b, j) ∷ ns) h e = ground (arith, lookup-bound m a k ns h.1)

module _ {R : Type 0} where
  -- The entry of a key.
  abbrev pub find : ResponseCache R → Text → Option (Entry R)
  find c k = lookup Text-discrete k c.entries

  pub record Represents (c : ResponseCache R) (items : Items R) : Type 0 where
    pub chain : Chain (find c) c.lru items
    pub nodes_distinct : IsDistinct ℕ_discrete c.lru
    pub entries_distinct : IsDistinct Text-discrete c.entries
    pub items_distinct : IsDistinct Text-discrete items
    pub complete : (k : Text) → lookup Text-discrete k items ≡ none → find c k ≡ none
    pub same_size : length c.entries ≡ length items
    pub fresh : IsBelow c.next_node c.lru
    pub positive : 0 < c.capacity
    pub bounded : length items ≤ c.capacity

  module _ (c : ResponseCache R) (items : Items R) (k : Text) (i : Item R)
      (rep : Represents c items) (hit : lookup Text-discrete k items ≡ some i) where
    -- The entry of an item points at its node.
    pub Represents-lookup :
        (a : ℕ) × (find c k ≡ some (entry_at a i)) × (lookup ℕ_discrete a c.lru ≡ some k)
    Represents-lookup = Chain-lookup (find c) c.lru items k i rep.chain rep.nodes_distinct hit

    module _ (a : ℕ) (at : find c k ≡ some (entry_at a i))
        (node : lookup ℕ_discrete a c.lru ≡ some k) where
      rest : Chain (find c) (erase ℕ_discrete a c.lru) (erase Text-discrete k items)
      rest = Chain-erase (find c) c.lru items k i a rep.chain rep.nodes_distinct hit at node

      complete_rest :
          (j : Text)
          → j ≢ k
          → lookup Text-discrete j (erase Text-discrete k items) ≡ none
          → find c j ≡ none
      complete_rest j ne h = rep.complete j (sym (lookup-erase_ne Text-discrete k j items ne) ∙ h)

      complete :
          (j : Text)
          → lookup Text-discrete j (erase Text-discrete k items) ≡ none
          → lookup Text-discrete j (erase Text-discrete k c.entries) ≡ none
      complete j h = elim (Text-discrete j k) [
        | yes e ↦ rw e (lookup-erase_self Text-discrete k c.entries rep.entries_distinct)
        | no ne ↦ lookup-erase_ne Text-discrete k j c.entries ne ∙ complete_rest j ne h
      ]

      apart : lookup Text-discrete k (erase Text-discrete k items) ≡ none
      apart = lookup-erase_self Text-discrete k items rep.items_distinct

      rest_length : length (erase Text-discrete k items) + 1 ≡ length items
      rest_length = length-erase Text-discrete k items i hit

      front : IsBelow c.next_node ((a, k) ∷ erase ℕ_discrete a c.lru)
      front = (
        lookup-bound c.next_node a k c.lru rep.fresh node,
        IsBelow-erase c.next_node a c.lru rep.fresh,
      )

      front-IsDistinct : IsDistinct ℕ_discrete ((a, k) ∷ erase ℕ_discrete a c.lru)
      front-IsDistinct = (
        lookup-erase_self ℕ_discrete a c.lru rep.nodes_distinct,
        erase-IsDistinct ℕ_discrete a c.lru rep.nodes_distinct,
      )

      -- The node and the entry of an item go together.
      pub Represents-erase :
          Represents
            (record c { lru = erase ℕ_discrete a c.lru; entries = erase Text-discrete k c.entries })
            (erase Text-discrete k items)
      Represents-erase = record {
        chain =
            Chain-agree (find c) _ k _ _ (λ j ne. lookup-erase_ne Text-discrete k j c.entries ne)
              (lookup-erase_self Text-discrete k items rep.items_distinct) rest;
        nodes_distinct = erase-IsDistinct ℕ_discrete a c.lru rep.nodes_distinct;
        entries_distinct = erase-IsDistinct Text-discrete k c.entries rep.entries_distinct;
        items_distinct = erase-IsDistinct Text-discrete k items rep.items_distinct;
        complete = complete;
        same_size = omega (
          arith,
          length-erase Text-discrete k c.entries _ at,
          length-erase Text-discrete k items _ hit,
          rep.same_size,
        );
        fresh = IsBelow-erase c.next_node a c.lru rep.fresh;
        positive = rep.positive;
        bounded = omega (arith, length-erase Text-discrete k items _ hit, rep.bounded);
      }

      -- The node comes to the front, and its item with it.
      pub Represents-touch :
          Represents
            (record c { lru = (a, k) ∷ erase ℕ_discrete a c.lru })
            ((k, i) ∷ erase Text-discrete k items)
      Represents-touch = record {
        chain = (refl, at, rest);
        nodes_distinct = front-IsDistinct;
        entries_distinct = rep.entries_distinct;
        items_distinct = (apart, erase-IsDistinct Text-discrete k items rep.items_distinct);
        complete = λ j h.
            let (ne, h') = lookup-cons_none Text-discrete k j i (erase Text-discrete k items) h in
            complete_rest j ne h';
        same_size = omega (arith, rest_length, rep.same_size);
        fresh = front;
        positive = rep.positive;
        bounded = omega (arith, rest_length, rep.bounded);
      }

      -- So too where the entry is written anew.
      pub Represents-assign :
          (new : Item R)
          → Represents
              (record c {
                lru = (a, k) ∷ erase ℕ_discrete a c.lru;
                entries = assign Text-discrete k (entry_at a new) c.entries;
              })
              ((k, new) ∷ erase Text-discrete k items)
      Represents-assign new = record {
        chain = (
          refl,
          lookup-assign_self Text-discrete k (entry_at a new) c.entries _ at,
          Chain-agree (find c) _ k _ _
              (λ j ne. lookup-assign_ne Text-discrete k j (entry_at a new) c.entries ne) apart rest,
        );
        nodes_distinct = front-IsDistinct;
        entries_distinct =
            assign-IsDistinct Text-discrete k (entry_at a new) c.entries rep.entries_distinct;
        items_distinct = (apart, erase-IsDistinct Text-discrete k items rep.items_distinct);
        complete = λ j h.
            let (ne, h') = lookup-cons_none Text-discrete k j new (erase Text-discrete k items) h in
            lookup-assign_ne Text-discrete k j (entry_at a new) c.entries ne
            ∙ complete_rest j ne h';
        same_size = omega (
          arith,
          rest_length,
          rep.same_size,
          length-assign Text-discrete k (entry_at a new) c.entries,
        );
        fresh = front;
        positive = rep.positive;
        bounded = omega (arith, rest_length, rep.bounded);
      }

  -- A new key, where there is room.
  pub Represents-emplace :
      (c : ResponseCache R) (items : Items R) (k : Text) (i : Item R)
      → Represents c items
      → lookup Text-discrete k items ≡ none
      → length items < c.capacity
      → Represents (emplace k i.response i.expires_at c) ((k, i) ∷ items)
  unfolding emplace
  Represents-emplace c items k i rep miss room =
      let new = entry_at c.next_node i in
      record {
        chain = (
          refl,
          lookup-cons_self Text-discrete k new c.entries,
          Chain-agree (find c) _ k _ _ (λ j ne. lookup-cons_ne Text-discrete k j new c.entries ne)
              miss rep.chain,
        );
        nodes_distinct = (lookup-fresh c.next_node c.lru rep.fresh, rep.nodes_distinct);
        entries_distinct = (rep.complete k miss, rep.entries_distinct);
        items_distinct = (miss, rep.items_distinct);
        complete = λ j h.
            let (ne, h') = lookup-cons_none Text-discrete k j i items h in
            lookup-cons_ne Text-discrete k j new c.entries ne ∙ rep.complete j h';
        same_size = omega (arith, rep.same_size);
        fresh = (omega arith, IsBelow-raise c.next_node c.lru rep.fresh);
        positive = rep.positive;
        bounded = omega (arith, room);
      }
