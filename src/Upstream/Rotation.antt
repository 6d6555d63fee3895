-- ===== src/Upstream/Rotation.antt =====
-- What a run of `select` calls does: the rotation over healthy backends, and no healthy backend is
-- passed over for a whole round.
use mathlib.Core.Path.{ap, ap₂, subst}
use native.Mathlib.Nat.{mod-eq_of_lt, add-mod_right, mod-add-mod, mod-mod, add-zero}
use eventedge.Base.{
  dec_lt, get_elem?_bound, ℕ, zero, suc, ◌+◌, ◌-◌, ◌%◌, ◌<◌, ◌≤◌, ◌≡◌, refl, sym, ◌∙◌, ◌⊎◌, inl,
  inr, true, List, [], ◌∷◌, Option, none, some, Outcome, ok, ◌>>=◌, get_elem?, arith, length,
}
use eventedge.Upstream.Pool.{
  UpstreamEndpoint, Backend, UpstreamPool, size, Selection, select, IsValid,
}
use eventedge.Upstream.Select.{probe, IsDown, Selects, picks, gives_up, select-Selects}

-- `n` calls of `select`, one after the other: the last pool, and the endpoints handed out.
pub selects : ℕ → UpstreamPool → Outcome (UpstreamPool × List (Option UpstreamEndpoint))
selects zero p = ok (p, [])
selects (suc n) p = do (p', e) ← select p; (q, es) ← selects n p'; ok (q, e ∷ es)

-- A step from a place that has wrapped is a step from the place itself.
mod_step : (a k n : ℕ) → ((a % n + 1) % n + k) % n ≡ (a + (k + 1)) % n
mod_step a k n =
    let e : a % n + 1 + k ≡ a % n + (k + 1) = omega arith in
    mod-add-mod (a % n + 1) n k ∙ ap (λ t. t % n) e ∙ mod-add-mod a n (k + 1)

-- Every backend is marked healthy.
abbrev pub IsAllHealthy : UpstreamPool → Type 0
IsAllHealthy p = (i : ℕ) (b : Backend) → get_elem? p.backends i ≡ some b → b.healthy ≡ true

-- The endpoint at a place of the rotation.
abbrev pub place : List Backend → ℕ → Option UpstreamEndpoint
place bs a = elim (get_elem? bs (a % length bs)) [ none ↦ none | some b ↦ some b.endpoint ]

-- `n` places in turn, from the place `a` on.
abbrev pub round : List Backend → ℕ → ℕ → List (Option UpstreamEndpoint)
round bs a zero = []
round bs a (suc n) = place bs a ∷ round bs (a + 1) n

-- No backend is down.
not-IsDown : (p : UpstreamPool) (i : ℕ) → IsAllHealthy p → ¬ IsDown p i
not-IsDown p i up (b, found, dn) = cc (up i b found)

-- With every backend up, one call hands out the backend of the turn and moves the turn by one.
healthy_turn :
    (p : UpstreamPool) {r : Selection}
    → 0 < size p
    → IsAllHealthy p
    → Selects p r
    → r ≡ (
      record p { next_index = (p.next_index % size p + 1) % size p },
      place p.backends p.next_index,
    )
healthy_turn p h up (picks zero b k before found healthy e) =
    let found' = rw (add-zero p.next_index) at found in
    e ∙ rw (add-zero p.next_index, found', place)
healthy_turn p h up (picks (suc k) b l before found healthy e) =
    absurd (not-IsDown p (probe p 0) up (before 0 (omega arith)))
healthy_turn p h up (gives_up before e) = absurd (not-IsDown p (probe p 0) up (before 0 h))

round_mod :
    (bs : List Backend) (a b n : ℕ) → a % length bs ≡ b % length bs → round bs a n ≡ round bs b n
round_mod bs a b zero e = refl
round_mod bs a b (suc n) e =
    let next : (a + 1) % length bs ≡ (b + 1) % length bs =
      sym (mod-add-mod a (length bs) 1)
      ∙ ap (λ t. (t + 1) % length bs) e
      ∙ mod-add-mod b (length bs) 1 in
    ap₂ ◌∷◌ (rw (e, place)) (round_mod bs (a + 1) (b + 1) n next)

-- `n` calls on a pool with every backend up hand out the endpoints in cyclic order from the turn on.
pub selects-round :
    (n : ℕ) (p : UpstreamPool)
    → 0 < size p
    → IsAllHealthy p
    → (q : UpstreamPool) × (selects n p ≡ ok (q, round p.backends p.next_index n))
unfolding selects
selects-round zero p h up = (p, refl)
selects-round (suc n) p h up =
    let (r, runs, s) = select-Selects p in
    let turn = healthy_turn p h up s in
    let p' = record p { next_index = (p.next_index % size p + 1) % size p } in
    let (q, rest) = selects-round n p' h up in
    let around : (p'.next_index) % size p ≡ (p.next_index + 1) % size p =
      mod-mod (p.next_index % size p + 1) (size p) ∙ mod-add-mod p.next_index (size p) 1 in
    (q, rw (runs, turn, rest, round_mod p.backends p'.next_index (p.next_index + 1) n around))

-- How far the turn is from a backend.
reach :
    (p : UpstreamPool) (i : ℕ) → IsValid p → i < size p → (d : ℕ) × (d < size p) × (probe p d ≡ i)
reach p i v h = elim (dec_lt i p.next_index) [
  | no ahead ↦ (i - p.next_index, omega arith, ap (λ t. t % size p) (omega arith) ∙ mod-eq_of_lt h)
  | yes behind ↦ (
    i + size p - p.next_index,
    omega (arith, v.in_range),
    ap (λ t. t % size p) (omega (arith, v.in_range)) ∙ add-mod_right i (size p) ∙ mod-eq_of_lt h,
  )
]

-- A later call hands out the backend `i`, with the turn left behind it.
abbrev pub HandsOut : UpstreamPool → ℕ → Backend → ℕ → Type 0
HandsOut p i b m =
    (q : UpstreamPool) × (es : List (Option UpstreamEndpoint)) × (selects m p ≡ ok (q, es))
    × (select q ≡ ok (record q { next_index = (i + 1) % size q }, some b.endpoint))

HandsOut-later :
    (p p' : UpstreamPool) (e : Option UpstreamEndpoint) (i : ℕ) (b : Backend) (m : ℕ)
    → select p ≡ ok (p', e)
    → HandsOut p' i b m
    → HandsOut p i b (suc m)
unfolding selects
HandsOut-later p p' e i b m runs (q, es, later, last) = (q, e ∷ es, rw (runs, later), last)

-- The pool after the backend at the offset `k` was taken.
abbrev taken : UpstreamPool → ℕ → UpstreamPool
taken p k = record p { next_index = (probe p k + 1) % size p }

-- With a healthy backend at the offset `d`, `select` takes that or one before it.
select_at_most :
    (p : UpstreamPool) (d : ℕ) (b : Backend) {r : Selection}
    → d < size p
    → get_elem? p.backends (probe p d) ≡ some b
    → b.healthy ≡ true
    → Selects p r
    → (r ≡ (taken p d, some b.endpoint))
      ⊎ ((k : ℕ) × (e : Option UpstreamEndpoint) × (k < d) × (r ≡ (taken p k, e)))
select_at_most p d b h found up (gives_up before e) = let (b', f, dn) = before d h in cc
select_at_most p d b h found up (picks k b' l before f up' e) = elim (dec_lt k d) [
  | yes lt ↦ inr (k, some b'.endpoint, lt, e)
  | no nlt ↦ elim (dec_lt d k) [
    | yes gt ↦ let (c, g, dn) = before d gt in cc
    | no ngt ↦
        let same : k ≡ d = omega arith in
        let f' : get_elem? p.backends (probe p d) ≡ some b' =
          subst (λ t. get_elem? p.backends (probe p t) ≡ some b') same f in
        let here : b' ≡ b = cc in inl (e ∙ rw (same, here))
  ]
]

-- From the next turn, the backend is nearer by what the turn has moved.
probe-taken : (p : UpstreamPool) (d k : ℕ) → k < d → probe (taken p k) (d - (k + 1)) ≡ probe p d
probe-taken p d k lt =
    mod_step (p.next_index + k) (d - (k + 1)) (size p) ∙ ap (λ t. t % size p) (omega arith)

HandsOut-within :
    (fuel d : ℕ) (p : UpstreamPool) (i : ℕ) (b : Backend)
    → d < fuel
    → d < size p
    → probe p d ≡ i
    → get_elem? p.backends i ≡ some b
    → b.healthy ≡ true
    → (m : ℕ) × (m ≤ d) × HandsOut p i b m
unfolding selects
HandsOut-within zero d p i b l h hit found up = elim l [ ]
HandsOut-within (suc fuel) d p i b l h hit found up =
    let (r, runs, s) = select-Selects p in
    elim (select_at_most p d b h (rw hit found) up s) [
      | inl now ↦ (0, omega arith, (p, [], refl, runs ∙ ap ok (now ∙ rw hit)))
      | inr (k, e, lt, later) ↦
          let (m, le, out) =
            HandsOut-within fuel (d - (k + 1)) (taken p k) i b (omega arith) (omega arith)
              (probe-taken p d k lt ∙ hit) found up in
          (suc m, omega arith, HandsOut-later p (taken p k) e i b m (runs ∙ ap ok later) out)
    ]

-- No healthy backend waits for more than a round: while the health marks stand, one of the next
-- `size` calls hands it out.
pub select-no_starvation :
    (p : UpstreamPool) (i : ℕ) (b : Backend)
    → IsValid p
    → get_elem? p.backends i ≡ some b
    → b.healthy ≡ true
    → (m : ℕ) × (m < size p) × HandsOut p i b m
select-no_starvation p i b v found up =
    let (d, h, hit) = reach p i v (get_elem?_bound p.backends i found) in
    let (m, le, out) = HandsOut-within (suc d) d p i b (omega arith) h hit found up in
    (m, omega arith, out)

-- A pool with a healthy backend hands one out at once.
pub select-picks :
    (p : UpstreamPool) (i : ℕ) (b : Backend)
    → IsValid p
    → get_elem? p.backends i ≡ some b
    → b.healthy ≡ true
    → (q : UpstreamPool) × (e : UpstreamEndpoint) × (select p ≡ ok (q, some e))
select-picks p i b v found up =
    let (d, h, hit) = reach p i v (get_elem?_bound p.backends i found) in
    let (r, runs, s) = select-Selects p in
    elim s [
      | picks k c l before there good e ↦ (taken p k, c.endpoint, runs ∙ ap ok e)
      | gives_up before e ↦
          let (c, there, down) = before d h in
          let same : get_elem? p.backends (probe p d) ≡ some b = rw hit found in cc
    ]
