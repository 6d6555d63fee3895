-- ===== src/Upstream/Health.antt =====
-- The constructor, the health marks, and the invariant that every call keeps.
use native.Mathlib.Nat.{mod-lt}
use eventedge.Base.{
  ℕ, zero, suc, ◌+◌, ◌%◌, ◌<◌, ◌≤◌, ◌≡◌, ◌≢◌, refl, ap, ◌⊎◌, ◌↔◌, length-le_of_none, inl, inr, Bool,
  true, false, List, [], ◌∷◌, map, Option, some, ok, throw, invalid_argument, out_of_range,
  get_elem?, set, length-set, length, get_elem?-set_self, get_elem?-set_ne, get_elem?_bound,
  Option-cases, Bool-cases, arith,
}
use eventedge.Upstream.Pool.{
  UpstreamEndpoint, Backend, UpstreamPool, size, Selection, select, endpoint, is_healthy,
  set_healthy, IsValid, create, bool_eq, backend_at,
}
use eventedge.Upstream.Select.{probe, Selects, picks, gives_up, select-Selects}

abbrev fresh : List UpstreamEndpoint → List Backend
fresh = map (λ endpoint. record { endpoint = endpoint; healthy = true })

endpoints-fresh : (es : List UpstreamEndpoint) → map (λ b. b.endpoint) (fresh es) ≡ es
endpoints-fresh [] = refl
endpoints-fresh (e ∷ es) = ap (◌∷◌ e) (endpoints-fresh es)

fresh_mark :
    (es : List UpstreamEndpoint) (i : ℕ)
    → i < length (fresh es)
    → (b : Backend) × (get_elem? (fresh es) i ≡ some b) × (b.healthy ≡ true)
fresh_mark [] i h = elim h [ ]
fresh_mark (e ∷ es) zero h = (record { endpoint = e; healthy = true }, refl, refl)
fresh_mark (e ∷ es) (suc i) h = fresh_mark es i (omega arith)

fresh_healthy :
    (es : List UpstreamEndpoint) (i : ℕ)
    → i < length (fresh es)
    → is_healthy (record { backends = fresh es; next_index = 0 }) i ≡ ok true
unfolding is_healthy
fresh_healthy es i h = let (b, found, up) = fresh_mark es i h in rw (found, backend_at) (ap ok up)

-- A pool is made of any endpoints but none; it has them in order, all marked healthy, and is valid.
pub create_lem :
    (es : List UpstreamEndpoint)
    → ((es ≡ []) × (create es ≡ throw invalid_argument))
      ⊎ ((p : UpstreamPool) × (create es ≡ ok p)
          × IsValid p
          × (map (λ b. b.endpoint) p.backends ≡ es)
          × ((i : ℕ) → i < size p → is_healthy p i ≡ ok true))
unfolding create is_healthy
create_lem [] = inl (refl, refl)
create_lem (e ∷ es) = inr (
  record {
    backends = map (λ endpoint. record { endpoint = endpoint; healthy = true }) (e ∷ es);
    next_index = 0;
  },
  refl,
  record { inhabited = omega arith; in_range = omega arith },
  endpoints-fresh (e ∷ es),
  fresh_healthy (e ∷ es),
)

-- `select` keeps the pool valid.
select-IsValid :
    (p q : UpstreamPool) (e : Option UpstreamEndpoint)
    → IsValid p
    → select p ≡ ok (q, e)
    → IsValid q
select-IsValid p q e v h = let (r, runs, s) = select-Selects p in moved r (cc) s
  where
    moved : (r : Selection) → r ≡ (q, e) → Selects p r → IsValid q
    moved r same (picks k b l before f up e') =
        let place : q ≡ record p { next_index = (probe p k + 1) % size p } = cc in
        rw place (record { inhabited = v.inhabited; in_range = mod-lt (probe p k + 1) v.inhabited })
    moved r same (gives_up before e') = let kept : q ≡ p = cc in rw kept v

-- Past the vector `set_healthy` throws. Inside it, it writes the mark of that one backend, tells
-- whether the mark changed, and leaves each other backend, every endpoint and the turn alone.
pub set_healthy_lem :
    (p : UpstreamPool) (i : ℕ) (h : Bool)
    → ((size p ≤ i) × (set_healthy p i h ≡ throw out_of_range))
      ⊎ ((q : UpstreamPool) × (changed : Bool) × (set_healthy p i h ≡ ok (q, changed))
          × (is_healthy q i ≡ ok h)
          × ((changed ≡ false) ↔ (is_healthy p i ≡ ok h))
          × (endpoint q i ≡ endpoint p i)
          × ((j : ℕ) → i ≢ j → backend_at q j ≡ backend_at p j)
          × (size q ≡ size p)
          × (q.next_index ≡ p.next_index))
unfolding set_healthy is_healthy endpoint
set_healthy_lem p i h = elim (Option-cases (get_elem? p.backends i)) [
  | inl out ↦ inl (length-le_of_none p.backends i out, ground arith)
  | inr (b, found) ↦ elim (Bool-cases (bool_eq b.healthy h)) [
    | inl same ↦ inr (
      p,
      false,
      ground arith,
      ground arith,
      (ground arith, ground arith),
      refl,
      λ j ne. refl,
      refl,
      refl,
    )
    | inr changes ↦
        let b' : Backend = record b { healthy = h } in
        let lt = get_elem?_bound p.backends i found in
        let wrote = get_elem?-set_self p.backends i b' lt in
        inr (
          record p { backends = set p.backends i b' },
          true,
          ground arith,
          rw (wrote, backend_at),
          (ground arith, ground arith),
          rw (wrote, found, backend_at),
          λ j ne. rw (get_elem?-set_ne p.backends i j b' ne, backend_at),
          length-set p.backends i b',
          refl,
        )
  ]
]
