-- ===== src/Upstream/Examples.antt =====
-- The pool on three endpoints, as the tests of the repository have it.
use eventedge.Base.{
  ℕ, zero, suc, ◌≡◌, ◌<◌, ◌≤◌, ◌↔◌, ◌≢◌, refl, ◌⊎◌, true, false, Bool, [], ◌∷◌, none, some, codes,
  ok, throw, out_of_range, arith,
}
use eventedge.Upstream.Pool.{
  UpstreamEndpoint, Backend, UpstreamPool, select, select_from, set_healthy, is_healthy, endpoint,
  IsValid, size, backend_at, Selection,
}
use eventedge.Upstream.Select.{Selects, select-Selects}
use eventedge.Upstream.Rotation.{
  selects, round, IsAllHealthy, HandsOut, selects-round, select-no_starvation,
}
use eventedge.Upstream.Health.{set_healthy_lem}

abbrev backend_a : UpstreamEndpoint
backend_a = record { host = codes "backend-a"; port = 9001 }

abbrev backend_b : UpstreamEndpoint
backend_b = record { host = codes "backend-b"; port = 9002 }

abbrev backend_c : UpstreamEndpoint
backend_c = record { host = codes "backend-c"; port = 9003 }

abbrev up : UpstreamEndpoint → Backend
up e = record { endpoint = e; healthy = true }

abbrev down : UpstreamEndpoint → Backend
down e = record { endpoint = e; healthy = false }

abbrev three : UpstreamPool
three = record { backends = up backend_a ∷ up backend_b ∷ up backend_c ∷ []; next_index = 1 }

abbrev degraded : UpstreamPool
degraded = record { backends = down backend_a ∷ up backend_b ∷ down backend_c ∷ []; next_index = 2 }

-- The turn passes over two unhealthy backends.
skips : select degraded ≡ ok (record degraded { next_index = 2 }, some backend_b)
unfolding select select_from
skips = refl

none_healthy :
    select (record degraded { backends = down backend_a ∷ down backend_b ∷ [] })
    ≡ ok (record degraded { backends = down backend_a ∷ down backend_b ∷ [] }, none)
unfolding select select_from
none_healthy = refl

select-Selects_example : (r : Selection) × (select degraded ≡ ok r) × Selects degraded r
select-Selects_example = select-Selects degraded

three-IsAllHealthy : IsAllHealthy three
three-IsAllHealthy zero b e = ground (arith, e)
three-IsAllHealthy (suc zero) b e = ground (arith, e)
three-IsAllHealthy (suc (suc zero)) b e = ground (arith, e)
three-IsAllHealthy (suc (suc (suc i))) b e = cc

selects-round_example : (q : UpstreamPool) × (selects 4 three ≡ ok (q, round three.backends 1 4))
selects-round_example = selects-round 4 three (omega arith) three-IsAllHealthy

degraded-IsValid : IsValid degraded
degraded-IsValid = record { inhabited = omega arith; in_range = omega arith }

select-no_starvation_example : (m : ℕ) × (m < size degraded) × HandsOut degraded 1 (up backend_b) m
select-no_starvation_example =
    select-no_starvation degraded 1 (up backend_b) degraded-IsValid refl refl

set_healthy_lem_example :
    ((size degraded ≤ 0) × (set_healthy degraded 0 true ≡ throw out_of_range))
    ⊎ ((q : UpstreamPool) × (changed : Bool) × (set_healthy degraded 0 true ≡ ok (q, changed))
        × (is_healthy q 0 ≡ ok true)
        × ((changed ≡ false) ↔ (is_healthy degraded 0 ≡ ok true))
        × (endpoint q 0 ≡ endpoint degraded 0)
        × ((j : ℕ) → 0 ≢ j → backend_at q j ≡ backend_at degraded j)
        × (size q ≡ size degraded)
        × (q.next_index ≡ degraded.next_index))
set_healthy_lem_example = set_healthy_lem degraded 0 true
