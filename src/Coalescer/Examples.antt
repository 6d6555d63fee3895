-- ===== src/Coalescer/Examples.antt =====
-- The coalescer on small histories, with numbers for waiters and responses.
use eventedge.Base.{
  ℕ, ◌+◌, ◌≡◌, refl, List, [], ◌∷◌, ◌++◌, map, none, codes, Text, Text-discrete, ℕ_discrete, lookup,
  erase, assign,
}
use eventedge.Coalescer.Flights.{
  leader, RequestCoalescer, create, flight, join_or_start, complete, pending, under_way,
}
use eventedge.Coalescer.History.{Call, joins, completes, run, step, waited, called, leads, ends}
use eventedge.Coalescer.Delivery.{run-called, complete-called, IsOpen}

abbrev live : Text
live = codes "/live"

abbrev other : Text
other = codes "/other"

abbrev history : List (Call ℕ ℕ)
history =
    joins live 1
    ∷ joins live 2
    ∷ joins other 3
    ∷ joins live 4
    ∷ completes live 200
    ∷ joins live 5
    ∷ joins live 6
    ∷ []

order : called live (run create history).1 ≡ 2 ∷ 4 ∷ []
unfolding run step join_or_start complete called lookup erase assign Text-discrete ℕ_discrete
order = refl

run-called_example :
    (waited live (run create history).1
      ≡ called live (run create history).1 ++ pending live (run create history).0)
    × (leads live (run create history).1
        ≡ ends live (run create history).1 + under_way live (run create history).0)
run-called_example = run-called live history

abbrev waiting : RequestCoalescer ℕ
waiting = record { flights = (live, 1 ∷ []) ∷ [] }

abbrev meanwhile : List (Call ℕ ℕ)
meanwhile = joins other 3 ∷ joins live 4 ∷ completes other 200 ∷ []

other-IsOpen : IsOpen live meanwhile
other-IsOpen = ((λ e. cc), tt)

complete-called_example :
    ((complete {R = ℕ} live 200 (run waiting meanwhile).0).1
      ≡ map (λ w. (w, 200)) ((1 ∷ []) ++ waited live (run waiting meanwhile).1))
    × (flight live (complete {R = ℕ} live 200 (run waiting meanwhile).0).0 ≡ none)
    × ((w : ℕ)
        → (join_or_start live w (complete {R = ℕ} live 200 (run waiting meanwhile).0).0).1 ≡ leader)
unfolding lookup Text-discrete ℕ_discrete
complete-called_example =
    complete-called live waiting (1 ∷ []) meanwhile 200 (record { distinct = (refl, tt) }) refl
      other-IsOpen
