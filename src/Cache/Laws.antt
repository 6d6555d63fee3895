-- ===== src/Cache/Laws.antt =====
-- What a client of the cache sees: any history of calls against the specification, a read after a
-- write, and what a write does to the other keys.
use mathlib.Core.Path.{subst}
use eventedge.Base.{
  ℕ, ◌+◌, ◌<◌, ◌≤◌, ◌≡◌, ◌≢◌, refl, sym, ap, ◌∙◌, ◌⊎◌, inl, inr, List, [], ◌∷◌, Option, none, some,
  Text, Text-discrete, length, lookup, arith, Outcome, ok, ◌>>=◌, Option-cases, Bool-cases, ◌==◌,
  ==_iff, leb, if◌then◌else◌, lookup-cons_self, lookup-cons_ne, lookup-erase_ne, lookup-erase_self,
}
use eventedge.Cache.Store.{ResponseCache, CacheOptions, create, get, put, back, size}
use eventedge.Cache.Spec.{Item, Items, drop_last, read, write}
use eventedge.Cache.Refines.{Represents, find, get-read, put-write, create-Represents, Chain-Last}

pub data Call (R : Type 0) : Type 0 where
  gets : Text → Call R
  puts : Text → R → Call R

module _ {R : Type 0} where
  -- Calls at their times, in the order in which the mutex lets them in; the answer of each `get`.
  unfoldable pub run :
      ResponseCache R → List (ℕ × Call R) → Outcome (ResponseCache R × List (Option R))
  run c [] = ok (c, [])
  run c ((now, gets key) ∷ calls) = do
    (c', r) ← get now key c
    (d, rs) ← run c' calls
    ok (d, r ∷ rs)
  run c ((now, puts key response) ∷ calls) = do c' ← put now key response c; run c' calls

  -- The same calls on the items.
  unfoldable pub run_items : CacheOptions → Items R → List (ℕ × Call R) → Items R × List (Option R)
  run_items o items [] = (items, [])
  run_items o items ((now, gets key) ∷ calls) =
      let (items', r) = read now key items in
      let (last, rs) = run_items o items' calls in (last, r ∷ rs)
  run_items o items ((now, puts key response) ∷ calls) =
      run_items o
        (write o.capacity key (record { response = response; expires_at = now + o.ttl }) items)
        calls

  run-Represents :
      (calls : List (ℕ × Call R)) (o : CacheOptions) (c : ResponseCache R) (items : Items R)
      → c.options ≡ o
      → Represents c items
      → (d : ResponseCache R) × (run c calls ≡ ok (d, (run_items o items calls).1))
        × Represents d (run_items o items calls).0
        × (d.options ≡ o)
  unfolding run run_items
  run-Represents [] o c items same rep = (c, refl, rep, same)
  run-Represents ((now, gets key) ∷ calls) o c items same rep =
      let (c', got, rep', kept) = get-read now key c items rep in
      let (d, rest, rep'', last) =
        run-Represents calls o c' (read now key items).0 (kept ∙ same) rep' in
      (d, rw (got, rest), rep'', last)
  run-Represents ((now, puts key response) ∷ calls) o c items same rep =
      let (c', put', rep', kept) = put-write now key response c items rep in
      let written =
        subst
          (λ (t : CacheOptions).
            Represents c' (
              write t.capacity key (record { response = response; expires_at = now + t.ttl })
                items))
          same rep' in
      let (d, rest, rep'', last) = run-Represents calls o c' _ (kept ∙ same) written in
      (d, rw put' rest, rep'', last)

  -- A history on a new cache is never undefined, gives the answers that the specification gives,
  -- and never holds more entries than the capacity.
  pub run-run_items :
      (o : CacheOptions) (calls : List (ℕ × Call R))
      → 0 < o.capacity
      → (c : ResponseCache R) × (d : ResponseCache R) × (create o ≡ ok c)
        × (run c calls ≡ ok (d, (run_items o [] calls).1))
        × Represents d (run_items o [] calls).0
        × (size d ≤ o.capacity)
  run-run_items o calls h = elim (create-Represents {R = R} o) [
    | inl (e, refused) ↦ absurd (omega arith)
    | inr (c, made, rep, same) ↦
        let (d, ran, rep', kept) = run-Represents calls o c [] same rep in
        (
          c,
          d,
          made,
          ran,
          rep',
          omega (arith, rep'.same_size, rep'.bounded, ap (λ (x : CacheOptions). x.capacity) kept),
        )
  ]

  -- What `get` answers, with the cache after it left aside.
  abbrev pub fetch : ℕ → Text → ResponseCache R → Outcome (Option R)
  fetch now key c = do (c', r) ← get now key c; ok r

  -- An item that has not run out.
  abbrev pub live : ℕ → Option (Item R) → Option R
  live now none = none
  live now (some i) = if leb i.expires_at now then none else some i.response

  read-live :
      (now : ℕ) (key : Text) (items : Items R)
      → (read now key items).1 ≡ live now (lookup Text-discrete key items)
  unfolding read
  read-live now key items = ground arith

  fetch-live :
      (now : ℕ) (key : Text) (c : ResponseCache R) (items : Items R)
      → Represents c items
      → fetch now key c ≡ ok (live now (lookup Text-discrete key items))
  fetch-live now key c items rep =
      let (c', got, rep', kept) = get-read now key c items rep in rw (got, read-live now key items)

  -- The key that a write gives up: the least recently used one, if the key is new and the cache full.
  abbrev pub IsEvicted : Text → Text → ResponseCache R → Type 0
  IsEvicted q key c = (find c key ≡ none) × (length c.entries ≡ c.capacity) × (back c.lru ≡ ok q)

  lookup-write_self :
      (capacity : ℕ) (key : Text) (new : Item R) (items : Items R)
      → lookup Text-discrete key (write capacity key new items) ≡ some new
  unfolding write
  lookup-write_self capacity key new items = elim (Option-cases (lookup Text-discrete key items)) [
    | inl miss ↦ rw (miss, write) (lookup-cons_self Text-discrete key new _)
    | inr (i, hit) ↦ rw (hit, write) (lookup-cons_self Text-discrete key new _)
  ]

  -- What a write leaves of another key.
  lookup-write_ne :
      (key q : Text) (new : Item R) (c : ResponseCache R) (items : Items R)
      → Represents c items
      → q ≢ key
      → let after = lookup Text-discrete q (write c.capacity key new items) in
        (after ≡ lookup Text-discrete q items) ⊎ (IsEvicted q key c × (after ≡ none))
  unfolding write
  lookup-write_ne key q new c items rep ne = elim (Option-cases (lookup Text-discrete key items)) [
    | inr (i, hit) ↦ inl (
        rw (hit, write)
          (lookup-cons_ne Text-discrete key q new _ ne
            ∙ lookup-erase_ne Text-discrete key q items ne))
    | inl miss ↦ elim (Bool-cases (length items == c.capacity)) [
      | inr room ↦ inl (rw (miss, write, room) (lookup-cons_ne Text-discrete key q new _ ne))
      | inl full ↦
          let e : length items ≡ c.capacity = (==_iff (length items) c.capacity).0 full in
          let l =
            Chain-Last (find c) c.lru items rep.chain rep.nodes_distinct rep.items_distinct
              (omega (arith, rep.positive)) in
          let left = lookup-cons_ne Text-discrete key q new (drop_last items) ne in
          elim (Text-discrete q l.key) [
            | yes last ↦ inr (
              (rep.complete key miss, rep.same_size ∙ e, l.read_back ∙ ap ok (sym last)),
              rw (miss, write, full)
                  (left
                    ∙ rw (l.dropped, last)
                        (lookup-erase_self Text-discrete l.key items rep.items_distinct)),
            )
            | no other ↦ inl (
                rw (miss, write, full)
                  (left ∙ rw l.dropped (lookup-erase_ne Text-discrete l.key q items other)))
          ]
    ]
  ]

  -- A read after a write has the response that was written, until its time to live has passed.
  pub fetch-put :
      (now later : ℕ) (key : Text) (response : R) (c : ResponseCache R) (items : Items R)
      → Represents c items
      → (c' : ResponseCache R) × (put now key response c ≡ ok c')
        × (fetch later key c' ≡ ok (if leb (now + c.ttl) later then none else some response))
  fetch-put now later key response c items rep =
      let (c', put', rep', kept) = put-write now key response c items rep in
      (
        c',
        put',
        fetch-live later key c' _ rep'
            ∙ rw (
                lookup-write_self c.capacity key
                  (record { response = response; expires_at = now + c.ttl }) items),
      )

  -- A write changes what can be read under another key only where that key is given up; then a
  -- read of it misses.
  pub fetch-put_ne :
      (now later : ℕ) (key q : Text) (response : R) (c : ResponseCache R) (items : Items R)
      → Represents c items
      → q ≢ key
      → (c' : ResponseCache R) × (put now key response c ≡ ok c')
        × ((fetch later q c' ≡ fetch later q c)
            ⊎ (IsEvicted q key c × (fetch later q c' ≡ ok none)))
  fetch-put_ne now later key q response c items rep ne =
      let (c', put', rep', kept) = put-write now key response c items rep in
      let new : Item R = record { response = response; expires_at = now + c.ttl } in
      let before = fetch-live later q c items rep in
      let after = fetch-live later q c' _ rep' in
      (
        c',
        put',
        elim (lookup-write_ne key q new c items rep ne) [
          | inl same ↦ inl (after ∙ ap (λ t. ok (live later t)) same ∙ sym before)
          | inr (gone, missing) ↦ inr (gone, after ∙ ap (λ t. ok (live later t)) missing)
        ],
      )
