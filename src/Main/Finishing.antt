-- ===== src/Main/Finishing.antt =====
-- The process, from its arguments to its end.
use mathlib.Core.Path.{subst}
use eventedge.Base.{
  ℕ, zero, suc, ◌+◌, ◌<◌, ◌≤◌, ◌≡◌, refl, sym, ap, ◌∙◌, ◌⊎◌, inl, inr, true, false, List, Text,
  Outcome, Bool-cases, ℕ_discrete, arith,
}
use eventedge.Server.{AcceptorErrors}
use eventedge.Main.Launch.{Program, exits, serves, main}
use eventedge.Main.Workers.{
  ThreadErrors, Started, all_started, refused, start_from, Ending, returns, terminates, unwind,
  after_start, run_workers, ending,
}
use eventedge.Main.Ready.{Ends}
use eventedge.Main.Ending.{main_lem}

-- What starting threads comes to, from the place `index` on: the first that is refused, if one is.
abbrev FirstRefused : ThreadErrors → ℕ → ℕ → Started → Type 0
FirstRefused errors left index all_started =
    (j : ℕ) → index ≤ j → j < index + left → errors.starting j ≡ false
FirstRefused errors left index (refused k) =
    (index ≤ k)
    × (k < index + left)
    × (errors.starting k ≡ true)
    × ((j : ℕ) → index ≤ j → j < k → errors.starting j ≡ false)

module _ (errors : ThreadErrors) where
  started_from_here :
      (index last : ℕ)
      → errors.starting index ≡ false
      → ((j : ℕ) → index + 1 ≤ j → j < last → errors.starting j ≡ false)
      → (j : ℕ) → index ≤ j
      → j < last
      → errors.starting j ≡ false
  started_from_here index last here later j low high = elim (ℕ_discrete index j) [
    | yes same ↦ ap errors.starting (sym same) ∙ here
    | no other ↦ later j (omega (arith, low, other)) high
  ]

  later-FirstRefused :
      (left index : ℕ) (started : Started)
      → errors.starting index ≡ false
      → FirstRefused errors left (index + 1) started
      → FirstRefused errors (suc left) index started
  later-FirstRefused left index all_started here later = λ j low high.
      started_from_here index (index + 1 + left) here later j low (omega (arith, high))
  later-FirstRefused left index (refused k) here (low, high, fails, later) =
      (omega (arith, low), omega (arith, high), fails, started_from_here index k here later)

  start_from-FirstRefused :
      (left index : ℕ) → FirstRefused errors left index (start_from errors left index)
  unfolding start_from
  start_from-FirstRefused zero index = λ j low high. absurd (omega (arith, low, high))
  start_from-FirstRefused (suc left) index = elim (Bool-cases (errors.starting index)) [
    | inl fails ↦
        rw fails
          (omega arith, omega arith, fails, (λ j low high. absurd (omega (arith, low, high))))
    | inr goes ↦ rw goes (
        later-FirstRefused left index (start_from errors left (index + 1)) goes
          (start_from-FirstRefused left (index + 1)))
  ]

-- How the process ends when it serves.
abbrev pub EndsBy : {Address F : Type 0} → ThreadErrors → Program Address F → Ending → Type 0
EndsBy threads p end =
    ((threads.reserving ≡ true) × (end ≡ returns 1))
    ⊎ ((threads.reserving ≡ false)
        × ((j : ℕ) → j < p.worker_count → threads.starting j ≡ false)
        × (end ≡ returns 0))
    ⊎ ((threads.reserving ≡ false)
        × (0 < p.worker_count)
        × (threads.starting 0 ≡ true)
        × (end ≡ returns 1))
    ⊎ ((threads.reserving ≡ false)
        × ((k : ℕ) × (0 < k)
            × (k < p.worker_count)
            × (threads.starting k ≡ true)
            × ((j : ℕ) → j < k → threads.starting j ≡ false))
        × (end ≡ terminates))

started-EndsBy :
    {Address F : Type 0} (threads : ThreadErrors) (p : Program Address F) (started : Started)
    → threads.reserving ≡ false
    → FirstRefused threads p.worker_count 0 started
    → EndsBy threads p (after_start started)
unfolding after_start unwind
started-EndsBy threads p all_started kept fine =
    inr (inl (kept, (λ j small. fine j (omega arith) (omega (arith, small))), refl))
started-EndsBy threads p (refused zero) kept (low, high, fails, fine) =
    inr (inr (inl (kept, omega (arith, high), fails, refl)))
started-EndsBy threads p (refused (suc k)) kept (low, high, fails, fine) = inr (
    inr (
      inr (
        kept,
        (suc k, omega arith, omega (arith, high), fails, (λ j small. fine j (omega arith) small)),
        refl,
      )))

run_workers-EndsBy :
    {Address F : Type 0} (threads : ThreadErrors) (p : Program Address F)
    → EndsBy threads p (run_workers threads p)
unfolding run_workers
run_workers-EndsBy threads p = elim (Bool-cases threads.reserving) [
  | inl refuses ↦ inl (refuses, rw refuses refl)
  | inr kept ↦ subst (EndsBy threads p) (rw kept refl) (
      started-EndsBy threads p (start_from threads p.worker_count 0) kept
        (start_from-FirstRefused threads p.worker_count 0))
]

-- With a parser of addresses that returns or throws, and workers that come to their ends: the process
-- exits with 1 if `main` does not come to serve, if the room for the threads is refused, or if the
-- first thread is; with 0 if every thread is started; and if a later thread is refused, it is
-- terminated, since the threads before it have not been joined.
pub ending_lem :
    {Address F : Type 0} (make_address : Text → Outcome Address) (hardware : ℕ)
    (errors : AcceptorErrors) (arguments : List Text) (threads : ThreadErrors)
    → ((text : Text) → Ends (make_address text))
    → ((main {F = F} make_address hardware errors arguments ≡ exits 1)
        × (ending threads (main {F = F} make_address hardware errors arguments) ≡ returns 1))
      ⊎ ((p : Program Address F) × (main make_address hardware errors arguments ≡ serves p)
          × EndsBy threads p (ending threads (main {F = F} make_address hardware errors arguments)))
unfolding ending
ending_lem {F = F} make_address hardware errors arguments threads ends =
    elim (main_lem make_address hardware ends F errors arguments) [
      | inl (exited, why) ↦ inl (exited, rw exited refl)
      | inr (c, p, read, fine, serving, ready) ↦
          inr (p, serving, rw serving (run_workers-EndsBy threads p))
    ]
