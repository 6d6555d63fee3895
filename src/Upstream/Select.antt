-- ===== src/Upstream/Select.antt =====
-- What `select` returns, on every branch.
use native.Mathlib.Nat.{mod-lt}
use eventedge.Base.{
  ℕ, zero, suc, ◌+◌, ◌%◌, ◌<◌, ◌≡◌, refl, inl, inr, true, false, none, some, ok, get_elem?,
  get_elem?_total, Bool-cases, arith, sym, ap, ℕ_discrete,
}
use mathlib.Core.Path.{subst}
use eventedge.Upstream.Pool.{Backend, UpstreamPool, size, select, select_from, Selection}

-- The backend that a turn of the loop looks at.
abbrev pub probe : UpstreamPool → ℕ → ℕ
probe p offset = (p.next_index + offset) % size p

pub probe-lt-size : (p : UpstreamPool) (offset : ℕ) → 0 < size p → probe p offset < size p
probe-lt-size p offset h = mod-lt (p.next_index + offset) h

-- The turn finds its backend unhealthy.
abbrev pub IsDown : UpstreamPool → ℕ → Type 0
IsDown p index = (b : Backend) × (get_elem? p.backends index ≡ some b) × (b.healthy ≡ false)

-- The result of `select`: the first healthy backend from the turn on, with the turn moved behind
-- it; or none, with the pool as it was, when the turn passes over every backend.
pub data Selects (p : UpstreamPool) (r : Selection) : Type 0 where
  picks :
      (k : ℕ) (b : Backend)
      → k < size p
      → ((j : ℕ) → j < k → IsDown p (probe p j))
      → get_elem? p.backends (probe p k) ≡ some b
      → b.healthy ≡ true
      → r ≡ (record p { next_index = (probe p k + 1) % size p }, some b.endpoint)
      → Selects p r
  gives_up : ((j : ℕ) → j < size p → IsDown p (probe p j)) → r ≡ (p, none) → Selects p r

-- One more turn found its backend down.
IsDown-suc :
    (p : UpstreamPool) (k : ℕ)
    → ((j : ℕ) → j < k → IsDown p (probe p j))
    → IsDown p (probe p k)
    → (j : ℕ) → j < k + 1
    → IsDown p (probe p j)
IsDown-suc p k before now j h = elim (ℕ_discrete j k) [
  | yes e ↦ subst (λ t. IsDown p (probe p t)) (sym e) now
  | no n ↦ before j (omega arith)
]

select_from-Selects :
    (rounds start : ℕ) (p : UpstreamPool)
    → start + rounds ≡ size p
    → ((j : ℕ) → j < start → IsDown p (probe p j))
    → (r : Selection) × (select_from rounds start p ≡ ok r) × Selects p r
unfolding select_from
select_from-Selects zero start p e down =
    ((p, none), refl, gives_up (λ j h. down j (omega arith)) refl)
select_from-Selects (suc rounds) start p e down =
    let (b, found) =
      get_elem?_total p.backends (probe p start) (probe-lt-size p start (omega arith)) in
    elim (Bool-cases b.healthy) [
      | inl up ↦ (
        (record p { next_index = (probe p start + 1) % size p }, some b.endpoint),
        rw (found, select_from, up),
        picks start b (omega arith) down found up refl,
      )
      | inr dn ↦
          let (r, runs, result) =
            select_from-Selects rounds (start + 1) p (omega arith)
              (IsDown-suc p start down (b, found, dn)) in
          (r, rw (found, select_from, dn) runs, result)
    ]

-- `select` never reads outside of the vector, and returns what `Selects` says.
pub select-Selects : (p : UpstreamPool) → (r : Selection) × (select p ≡ ok r) × Selects p r
unfolding select
select-Selects p = select_from-Selects (size p) 0 p (omega arith) (λ j h. elim h [ ])

-- `select` leaves as many backends as there were.
pub Selects-size : (p : UpstreamPool) (r : Selection) → Selects p r → size r.0 ≡ size p
Selects-size p r (picks k b l before found up e) = ap (λ x. size x.0) e
Selects-size p r (gives_up before e) = ap (λ x. size x.0) e
