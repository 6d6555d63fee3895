-- ===== src/Monitor/Marks.antt =====
-- What the end of a check writes: one mark, and one transition if the mark was another.
use eventedge.Base.{
  ℕ, ◌<◌, ◌+◌, ◌%◌, ◌^◌, Option, none, some, ◌≡◌, ◌≢◌, refl, ◌∙◌, ◌⊎◌, inl, inr, Bool, ok,
  get_elem?_total, Bool-cases, arith,
}
use eventedge.Metrics.{MetricsRegistry, fetch_add, record_health_transition}
use eventedge.Upstream.{UpstreamEndpoint, UpstreamPool, size, endpoint, is_healthy, backend_at}
use eventedge.Upstream.Health.{set_healthy_lem}
use eventedge.Monitor.Check.{Watched, count_transition, mark}

-- One transition more, if there are metrics: the counter has 64 bits, and nothing else changes.
abbrev pub one_transition_more : Option MetricsRegistry → Option MetricsRegistry
one_transition_more none = none
one_transition_more (some m) =
    some (record m { health_transitions = (m.health_transitions + 1) % 2 ^ 64 })

count_transition_more : (m : Option MetricsRegistry) → count_transition m ≡ one_transition_more m
unfolding count_transition record_health_transition fetch_add
count_transition_more none = refl
count_transition_more (some m) = refl

-- The mark of the backend `i` is `healthy`, and nothing else in the pool has changed; a transition
-- has been counted exactly if the mark was another.
pub record Marked (i : ℕ) (healthy : Bool) (w w' : Watched) : Type 0 where
  pub own : is_healthy w'.upstream_pool i ≡ ok healthy
  pub others : (j : ℕ) → i ≢ j → backend_at w'.upstream_pool j ≡ backend_at w.upstream_pool j
  pub same_endpoint : endpoint w'.upstream_pool i ≡ endpoint w.upstream_pool i
  pub same_size : size w'.upstream_pool ≡ size w.upstream_pool
  pub same_turn : w'.upstream_pool.next_index ≡ w.upstream_pool.next_index
  pub counted :
      ((is_healthy w.upstream_pool i ≡ ok healthy) × (w'.metrics ≡ w.metrics))
      ⊎ ((is_healthy w.upstream_pool i ≢ ok healthy) × (w'.metrics ≡ one_transition_more w.metrics))

pub endpoint-ok :
    (p : UpstreamPool) (i : ℕ) → i < size p → (e : UpstreamEndpoint) × (endpoint p i ≡ ok e)
unfolding endpoint
endpoint-ok p i h =
    let (b, found) = get_elem?_total p.backends i h in (b.endpoint, ground (arith, found))

-- The backend `i` of a pool is there.
pub mark-Marked :
    (i : ℕ) (healthy : Bool) (w : Watched)
    → i < size w.upstream_pool
    → (w' : Watched) × (mark i healthy w ≡ ok w') × Marked i healthy w w'
unfolding mark
mark-Marked i healthy w h = elim (set_healthy_lem w.upstream_pool i healthy) [
  | inl (past, thrown) ↦ absurd (omega (arith, past, h))
  | inr (q, changed, done, own, same_iff, same_endpoint, others, same_size, same_turn) ↦
      let (e, there) = endpoint-ok w.upstream_pool i h in
      let there' = same_endpoint ∙ there in
      elim (Bool-cases changed) [
        | inl yes_changed ↦ (
          record { upstream_pool = q; metrics = count_transition w.metrics },
          rw (done, yes_changed, there') refl,
          record {
            own = own;
            others = others;
            same_endpoint = same_endpoint;
            same_size = same_size;
            same_turn = same_turn;
            counted = inr (λ same. cc (same_iff.1 same), count_transition_more w.metrics);
          },
        )
        | inr unchanged ↦ (
          record w { upstream_pool = q },
          rw (done, unchanged) refl,
          record {
            own = own;
            others = others;
            same_endpoint = same_endpoint;
            same_size = same_size;
            same_turn = same_turn;
            counted = inl (same_iff.0 unchanged, refl);
          },
        )
      ]
]
