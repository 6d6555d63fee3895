-- ===== src/Service/Flights.antt =====
-- How joining a flight and ending one change what waits and what is under way.
use eventedge.Base.{
  ℕ, ◌+◌, ◌≡◌, sym, ap, List, [], ◌∷◌, ◌++◌, none, some, Text, Text-discrete, lookup, erase, assign,
  IsDistinct, lookup-erase_self, lookup-erase_ne, lookup-assign_self, lookup-assign_ne, arith,
}
use eventedge.Coalescer.{under_way}
use eventedge.Service.Counts.{times, waiting_in, one_if_key}

-- More sessions that wait, behind the others.
pub times-append :
    (before more : List ℕ) (id : ℕ) → times id (before ++ more) ≡ times id more + times id before
times-append [] more id = omega arith
times-append (w ∷ before) more id = omega (arith, times-append before more id)

module _ (id : ℕ) (key : Text) where
  pub waiting_in-assign :
      (fs : List (Text × List ℕ)) (ws ws' : List ℕ)
      → lookup Text-discrete key fs ≡ some ws
      → waiting_in id (assign Text-discrete key ws' fs) + times id ws
        ≡ waiting_in id fs + times id ws'
  unfolding lookup assign
  waiting_in-assign [] ws ws' h = cc
  waiting_in-assign ((k, v) ∷ fs) ws ws' h = elim (Text-discrete k key) [
    | yes same ↦ ground (arith)
    | no other ↦ ground (arith, waiting_in-assign fs ws ws')
  ]

  pub waiting_in-erase :
      (fs : List (Text × List ℕ)) (ws : List ℕ)
      → lookup Text-discrete key fs ≡ some ws
      → waiting_in id (erase Text-discrete key fs) + times id ws ≡ waiting_in id fs
  unfolding lookup erase
  waiting_in-erase [] ws h = cc
  waiting_in-erase ((k, v) ∷ fs) ws h = ground (arith, waiting_in-erase fs ws)

-- A new flight.
pub under_way-cons :
    (k key : Text) (fs : List (Text × List ℕ))
    → lookup Text-discrete key fs ≡ none
    → under_way k (record { flights = (key, []) ∷ fs })
      ≡ under_way k (record { flights = fs }) + one_if_key key k
unfolding lookup
under_way-cons k key fs h = elim (Text-discrete key k) [
  | yes same ↦ ground (arith, ap (λ q. lookup Text-discrete q fs) same)
  | no other ↦ ground (arith)
]

-- One waiter more is no other flight.
pub under_way-assign :
    (k key : Text) (fs : List (Text × List ℕ)) (ws ws' : List ℕ)
    → lookup Text-discrete key fs ≡ some ws
    → under_way k (record { flights = assign Text-discrete key ws' fs })
      ≡ under_way k (record { flights = fs })
under_way-assign k key fs ws ws' h = elim (Text-discrete k key) [
  | yes same ↦
      let now = lookup-assign_self Text-discrete key ws' fs ws h in rw same (ground (arith, now, h))
  | no other ↦ let kept = lookup-assign_ne Text-discrete key k ws' fs other in ground (arith, kept)
]

-- A flight that ends.
pub under_way-erase :
    (k key : Text) (fs : List (Text × List ℕ)) (ws : List ℕ)
    → lookup Text-discrete key fs ≡ some ws
    → IsDistinct Text-discrete fs
    → under_way k (record { flights = erase Text-discrete key fs }) + one_if_key key k
      ≡ under_way k (record { flights = fs })
under_way-erase k key fs ws h distinct = elim (Text-discrete key k) [
  | yes same ↦
      let gone = lookup-erase_self Text-discrete key fs distinct in
      ground (
        arith,
        gone,
        h,
        same,
        ap (λ q. lookup Text-discrete q fs) same,
        ap (λ q. lookup Text-discrete q (erase Text-discrete key fs)) same,
      )
  | no other ↦
      let kept = lookup-erase_ne Text-discrete key k fs (λ e. other (sym e)) in ground (arith, kept)
]
