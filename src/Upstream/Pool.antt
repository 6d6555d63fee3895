-- ===== src/Upstream/Pool.antt =====
-- `UpstreamEndpoint` and `UpstreamPool`.
use eventedge.Base.{
  ℕ, zero, suc, ◌+◌, ◌%◌, ◌<◌, Bool, true, false, List, [], ◌∷◌, map, Option, none, some, Text,
  Outcome, ok, throw, undefined, invalid_argument, out_of_range, ◌>>=◌, length, get_elem?, set,
  if◌then◌else◌,
}

pub record UpstreamEndpoint : Type 0 where
  pub host : Text
  pub port : ℕ  -- std::uint16_t

pub record Backend : Type 0 where
  pub endpoint : UpstreamEndpoint
  pub healthy : Bool

pub record UpstreamPool : Type 0 where
  pub backends : List Backend
  pub next_index : ℕ

-- The constructor.
unfoldable pub create : List UpstreamEndpoint → Outcome UpstreamPool
create [] = throw invalid_argument
create (e ∷ es) = ok (record {
  backends = map (λ endpoint. record { endpoint = endpoint; healthy = true }) (e ∷ es);
  next_index = 0;
})

abbrev pub size : UpstreamPool → ℕ
size p = length p.backends

-- `backends_.at(index)`
abbrev pub backend_at : UpstreamPool → ℕ → Outcome Backend
backend_at p index = elim (get_elem? p.backends index) [ none ↦ throw out_of_range | some b ↦ ok b ]

unfoldable pub endpoint : UpstreamPool → ℕ → Outcome UpstreamEndpoint
endpoint p index = do b ← backend_at p index; ok b.endpoint

unfoldable pub is_healthy : UpstreamPool → ℕ → Outcome Bool
is_healthy p index = do b ← backend_at p index; ok b.healthy

abbrev pub bool_eq : Bool → Bool → Bool
bool_eq true b = b
bool_eq false true = false
bool_eq false false = true

-- The pool after the call, and whether the mark changed.
unfoldable pub set_healthy : UpstreamPool → ℕ → Bool → Outcome (UpstreamPool × Bool)
set_healthy p index healthy = do
  b ← backend_at p index
  if bool_eq b.healthy healthy
      then ok (p, false)
      else ok (record p { backends = set p.backends index (record b { healthy = healthy }) }, true)

abbrev pub Selection : Type 0
Selection = UpstreamPool × Option UpstreamEndpoint

-- The loop of `select`, with `rounds` turns left of `size` turns. `backends_[index]` is not
-- checked: outside of the vector it is undefined.
unfoldable pub select_from : ℕ → ℕ → UpstreamPool → Outcome Selection
select_from zero offset p = ok (p, none)
select_from (suc rounds) offset p =
    let index = (p.next_index + offset) % size p in
    let rest = select_from rounds (offset + 1) p in
    elim (get_elem? p.backends index) [
      | none ↦ undefined
      | some b ↦
          if b.healthy
          then ok (record p { next_index = (index + 1) % size p }, some b.endpoint)
          else rest
    ]

unfoldable pub select : UpstreamPool → Outcome Selection
select p = select_from (size p) 0 p

-- The turn never points outside of the vector, and there is a backend.
pub record IsValid (p : UpstreamPool) : Type 0 where
  pub inhabited : 0 < size p
  pub in_range : p.next_index < size p
