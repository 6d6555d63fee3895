-- ===== src/Coalescer/Balance.antt =====
-- What comes into the flight of a key, against what goes out.
use mathlib.Core.List.{append-nil, append_assoc}
use eventedge.Base.{
  ◌+◌, ◌≡◌, inl, inr, List, [], ◌∷◌, ◌++◌, Text, Text-discrete, arith, Option-cases,
  lookup-cons_self, lookup-cons_ne, lookup-erase_self, lookup-erase_ne, lookup-assign_self,
  lookup-assign_ne, erase-IsDistinct, assign-IsDistinct,
}
use eventedge.Coalescer.Flights.{RequestCoalescer, flight, IsValid, pending, under_way}
use eventedge.Coalescer.History.{
  Call, joins, completes, Event, step, run, waited, called, leads, ends,
}
use eventedge.Coalescer.Steps.{
  waited-append, called-append, leads-append, ends-append, waited-deliveries, leads-deliveries,
  ends-deliveries, called-deliveries, step-lead, step-wait, step-idle, step-end,
}

-- Two stretches of a queue, one after the other.
splice :
    {W : Type 0} (a b c d e f m : List W)
    → a ++ b ≡ c ++ m
    → m ++ d ≡ e ++ f
    → a ++ (b ++ d) ≡ (c ++ e) ++ f
splice a b c d e f m p q = cc (append_assoc a b d, append_assoc c m d, append_assoc c e f, p, q)

module _ {W R : Type 0} where
  -- What one call does to the flight of a key, by its events.
  pub record Balances (k : Text) (c c' : RequestCoalescer W) (es : List (Event W R)) : Type 0 where
    pub queue : pending k c ++ waited k es ≡ called k es ++ pending k c'
    pub flow : under_way k c + leads k es ≡ ends k es + under_way k c'

  pub step-Balances :
      (k : Text) (c : RequestCoalescer W) (call : Call W R)
      → IsValid c
      → Balances k c (step c call).0 (step c call).1
  unfolding waited called leads ends
  step-Balances k c (joins key w) v = elim (Option-cases (flight key c)) [
    | inl out ↦ rw (step-lead c key w out) (elim (Text-discrete k key) [
      | yes e ↦
          let now = lookup-cons_self Text-discrete key [] c.flights in
          rw e (record { queue = ground (arith, now); flow = ground (arith, now) })
      | no ne ↦
          let now = lookup-cons_ne Text-discrete key k [] c.flights ne in
          record {
            queue = ground (arith, now, append-nil (pending k c));
            flow = ground (arith, now);
          }
    ])
    | inr (ws, found) ↦ rw (step-wait c key w ws found) (elim (Text-discrete k key) [
      | yes e ↦
          let now = lookup-assign_self Text-discrete key (ws ++ w ∷ []) c.flights ws found in
          rw e (record { queue = ground (arith, now); flow = ground (arith, now) })
      | no ne ↦
          let now = lookup-assign_ne Text-discrete key k (ws ++ w ∷ []) c.flights ne in
          record {
            queue = ground (arith, now, append-nil (pending k c));
            flow = ground (arith, now);
          }
    ])
  ]
  step-Balances k c (completes key r) v = elim (Option-cases (flight key c)) [
    | inl out ↦ rw (step-idle c key r out) (record { queue = append-nil _; flow = omega arith })
    | inr (ws, found) ↦ rw (step-end c key r ws found) (elim (Text-discrete k key) [
      | yes e ↦
          let now = lookup-erase_self Text-discrete key c.flights v.distinct in
          rw e (record {
            queue = ground (
              arith,
              now,
              waited-deliveries key key r ws,
              called-deliveries key key r ws,
              append-nil ws,
            );
            flow = ground (arith, now, leads-deliveries key key r ws, ends-deliveries key key r ws);
          })
      | no ne ↦
          let now = lookup-erase_ne Text-discrete key k c.flights ne in
          record {
            queue = ground (
              arith,
              now,
              waited-deliveries k key r ws,
              called-deliveries k key r ws,
              append-nil (pending k c),
            );
            flow = ground (arith, now, leads-deliveries k key r ws, ends-deliveries k key r ws);
          }
    ])
  ]

  pub step-IsValid :
      (c : RequestCoalescer W) (call : Call W R) → IsValid c → IsValid (step c call).0
  step-IsValid c (joins key w) v = elim (Option-cases (flight key c)) [
    | inl out ↦ rw (step-lead c key w out) (record { distinct = (out, v.distinct) })
    | inr (ws, found) ↦ rw (step-wait c key w ws found) (record {
      distinct = assign-IsDistinct Text-discrete key (ws ++ w ∷ []) c.flights v.distinct;
    })
  ]
  step-IsValid c (completes key r) v = elim (Option-cases (flight key c)) [
    | inl out ↦ rw (step-idle c key r out) v
    | inr (ws, found) ↦
        rw (step-end c key r ws found)
          (record { distinct = erase-IsDistinct Text-discrete key c.flights v.distinct })
  ]

  pub run-Balances :
      (k : Text) (c : RequestCoalescer W) (cs : List (Call W R))
      → IsValid c
      → Balances k c (run c cs).0 (run c cs).1 × IsValid (run c cs).0
  unfolding run waited called leads ends
  run-Balances k c [] v =
      (record { queue = ground (arith, append-nil (pending k c)); flow = ground arith }, v)
  run-Balances k c (call ∷ cs) v =
      let (c', es) = step c call in
      let now = step-Balances k c call v in
      let (later, valid) = run-Balances k c' cs (step-IsValid c call v) in
      let rest = (run c' cs).1 in
      (
        record {
          queue =
              rw (waited-append k es rest, called-append k es rest)
                (splice (pending k c) (waited k es) (called k es) (waited k rest) (called k rest)
                  (pending k (run c' cs).0) (pending k c') now.queue later.queue);
          flow = omega (arith, leads-append k es rest, ends-append k es rest, now.flow, later.flow);
        },
        valid,
      )
