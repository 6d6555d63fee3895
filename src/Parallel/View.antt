-- ===== src/Parallel/View.antt =====
-- Parts as the work of `Service`: what has still to end a flight counts as its proxy.
use eventedge.Base.{
  ℕ, zero, suc, ◌≡◌, refl, ap, false, List, [], ◌∷◌, ◌++◌, map, some, Text, ok, get_elem?,
}
use eventedge.Http.{Beast}
use eventedge.Metrics.Render.{Printer}
use eventedge.Session.{Shared, HttpSession, Work, read_request, write, proxy, Result}
use eventedge.Service.World.{World, remove_at, holder}
use eventedge.Service.World
use eventedge.Service.Ledger.{Ledger}
use eventedge.Parallel.State.{
  Part, waits_for, missed, leads, completes, replies, Parallel, part_holder, assigned, whole,
  PartResult,
}

module _ (b : Beast) where
  open b use {Fields}

  abbrev pub work_of : Part Fields → Work Fields
  work_of (waits_for x) = x
  work_of (missed key) = read_request
  work_of (leads key) = proxy (record { host = []; port = 0 }) b.default_request (some key)
  work_of (completes key response) =
      proxy (record { host = []; port = 0 }) b.default_request (some key)
  work_of (replies response) = write response false

  abbrev pub works_of : List (ℕ × Part Fields) → List (ℕ × Work Fields)
  works_of [] = []
  works_of ((i, x) ∷ xs) = (i, work_of x) ∷ works_of xs

  abbrev pub view : Parallel Fields → World Fields
  view p = record {
    shared = p.shared;
    sessions = p.sessions;
    work = works_of p.parts;
    ended = p.ended;
  }

  pub works_of-append :
      (xs ys : List (ℕ × Part Fields)) → works_of (xs ++ ys) ≡ works_of xs ++ works_of ys
  works_of-append [] ys = refl
  works_of-append ((i, x) ∷ xs) ys = ap (◌∷◌ (i, work_of x)) (works_of-append xs ys)

  pub works_of-remove_at :
      (k : ℕ) (xs : List (ℕ × Part Fields)) → works_of (remove_at k xs) ≡ remove_at k (works_of xs)
  unfolding remove_at
  works_of-remove_at k [] = refl
  works_of-remove_at zero ((i, x) ∷ xs) = refl
  works_of-remove_at (suc k) ((i, x) ∷ xs) = ap (◌∷◌ (i, work_of x)) (works_of-remove_at k xs)

  pub works_of-get_elem? :
      (k i : ℕ) (x : Part Fields) (xs : List (ℕ × Part Fields))
      → get_elem? xs k ≡ some (i, x)
      → get_elem? (works_of xs) k ≡ some (i, work_of x)
  works_of-get_elem? k i x [] h = cc
  works_of-get_elem? zero i x ((j, y) ∷ xs) h =
      let same_i : j ≡ i = cc in let same : y ≡ x = cc in λ q. some (same_i q, work_of (same q))
  works_of-get_elem? (suc k) i x ((j, y) ∷ xs) h = works_of-get_elem? k i x xs h

  holder-work_of : (i : ℕ) (x : Part Fields) → part_holder i x ≡ holder i (work_of x)
  unfolding part_holder holder
  holder-work_of i (waits_for x) = refl
  holder-work_of i (missed key) = refl
  holder-work_of i (leads key) = refl
  holder-work_of i (completes key response) = refl
  holder-work_of i (replies response) = refl

  pub works_of-assigned :
      (i : ℕ) (xs : List (Part Fields))
      → works_of (assigned i xs) ≡ World.assigned i (map work_of xs)
  unfolding assigned World.assigned
  works_of-assigned i [] = refl
  works_of-assigned i (x ∷ xs) = λ q. (holder-work_of i x q, work_of x) ∷ works_of-assigned i xs q

  pub work_of-waits_for : (xs : List (Work Fields)) → map work_of (map waits_for xs) ≡ xs
  work_of-waits_for [] = refl
  work_of-waits_for (x ∷ xs) = ap (◌∷◌ x) (work_of-waits_for xs)

  -- The result of a part, by the counts that it should lead to.
  abbrev pub PartLedger :
      (print : Printer) → ℕ → ℕ → (ℕ → ℕ) → (Text → ℕ) → PartResult b print → Type 0
  PartLedger print n i target base result =
      (s : HttpSession Fields) × (w : Shared Fields) × (new : List (Part Fields)) × (result
        ≡ ok (s, w, new))
      × Ledger b print n i target base (ok (s, w, map work_of new))

  module _ (print : Printer) (n i : ℕ) (target : ℕ → ℕ) (base : Text → ℕ) where
    pub whole-PartLedger :
        (result : Result b print)
        → Ledger b print n i target base result
        → PartLedger print n i target base (whole b print result)
    unfolding whole
    whole-PartLedger result (s, w, new, done, place, healthy, owns, flies) = (
      s,
      w,
      map waits_for new,
      rw done refl,
      (s, w, new, (λ q. ok (s, w, work_of-waits_for new q)), place, healthy, owns, flies),
    )
