-- ===== src/Service/Balance.antt =====
-- What stays true of all the sessions together, and that a connection and a handler keep it.
use mathlib.Core.Path.{subst}
use eventedge.Base.{
  ℕ, zero, suc, ◌+◌, ◌≡◌, refl, sym, ap, ◌∙◌, ◌⊎◌, inl, inr, Bool, List, [], ◌∷◌, ◌++◌, Option,
  none, some, Text, ok, ltb, if◌then◌else◌, length, get_elem?, set, length-append, length-set,
  get_elem?-set_self, get_elem?-set_ne, get_elem?_bound, ℕ_discrete, Bool-cases, All, All-append,
  false, arith,
}
use eventedge.Http.{Beast, has_trace_body}
use eventedge.Metrics.Render.{Printer}
use eventedge.Session
use eventedge.Session.{Shared, HttpSession, Work, read_request, Clock, Result, do_read}
use eventedge.Service.World.{
  World, Input, remove_at, assigned, holder, is_fatal, handler, connect, finish,
}
use eventedge.Service.Counts.{
  times, owned, waiting, flying, under, owned-append, flying-append, owned-remove_at,
  flying-remove_at,
}
use eventedge.Service.Ledger.{IsHealthy, IsStarted, Stays, Ledger}
use eventedge.Service.Handlers.{Carries, after, handler-Ledger}

-- One for each number of a session.
abbrev pub one_if_connected : ℕ → ℕ → ℕ
one_if_connected sessions id = if ltb id sessions then 1 else 0

module _ {ℓ} {A : Type ℓ} where
  get_elem?-snoc :
      (xs : List A) (v x : A) (i : ℕ)
      → get_elem? (xs ++ (v ∷ [])) i ≡ some x
      → (get_elem? xs i ≡ some x) ⊎ ((i ≡ length xs) × (v ≡ x))
  get_elem?-snoc [] v x zero h = inr (refl, cc)
  get_elem?-snoc [] v x (suc i) h = cc
  get_elem?-snoc (y ∷ xs) v x zero h = inl h
  get_elem?-snoc (y ∷ xs) v x (suc i) h = elim (get_elem?-snoc xs v x i h) [
    | inl old ↦ inl old
    | inr (last, same) ↦ inr (omega (arith, last), same)
  ]

module _ {ℓ κ} {A : Type ℓ} (P : A → Type κ) where
  pub All-remove_at : (k : ℕ) (xs : List A) → All P xs → All P (remove_at k xs)
  unfolding remove_at
  All-remove_at k [] h = h
  All-remove_at zero (x ∷ xs) (first, rest) = rest
  All-remove_at (suc k) (x ∷ xs) (first, rest) = (first, All-remove_at k xs rest)

module _ (b : Beast) (print : Printer) (n : ℕ) where
  open b use {Fields}

  pub record IsBalanced (world : World Fields) : Type 0 where
    pub healthy : IsHealthy b print n world.shared
    pub named :
        (i : ℕ) (s : HttpSession Fields)
        → get_elem? world.sessions i ≡ some s
        → (s.id ≡ i) × (has_trace_body s.request ≡ false)
    pub started : All (λ x. IsStarted b print n x.1) world.work
    pub once :
        (id : ℕ)
        → owned id world.work + waiting id world.shared.request_coalescer + times id world.ended
          ≡ one_if_connected (length world.sessions) id
    pub flown : (k : Text) → flying k world.work ≡ under k world.shared.request_coalescer

  pub connect-IsBalanced :
      (world : World Fields)
      → IsBalanced world
      → (world' : World Fields) × (connect b print world ≡ ok world') × IsBalanced world'
  unfolding connect Session.run Session.create do_read assigned holder
  connect-IsBalanced world h = (
    _,
    refl,
    record {
      healthy = h.healthy;
      named = λ i s found. elim (get_elem?-snoc world.sessions _ s i found) [
        | inl old ↦ h.named i s old
        | inr (last, same) ↦ (
          sym (ap (λ t. t.id) same) ∙ sym last,
          ap (λ t. has_trace_body t.request) (sym same) ∙ b.default_has_none,
        )
      ];
      started = All-append _ world.work _ h.started (tt, tt);
      once = λ id. ground (
        arith,
        h.once id,
        owned-append id world.work ((length world.sessions, read_request) ∷ []),
        length-append world.sessions (
            record { id = length world.sessions; request = b.default_request; request_started = 0 }
            ∷ []),
      );
      flown = λ k. omega (
        arith,
        h.flown k,
        flying-append k world.work ((length world.sessions, read_request) ∷ []),
      );
    },
  )

  assigned-IsStarted :
      (i : ℕ) (new : List (Work Fields))
      → All (IsStarted b print n) new
      → All (λ x. IsStarted b print n x.1) (assigned i new)
  unfolding assigned
  assigned-IsStarted i [] starts = tt
  assigned-IsStarted i (x ∷ new) (first, rest) = (first, assigned-IsStarted i new rest)

  module _ (world : World Fields) (k i : ℕ) (x : Work Fields) (h : IsBalanced world)
      (there : get_elem? world.work k ≡ some (i, x)) where
    finished-IsBalanced :
        (fatal : Bool) (s : HttpSession Fields) (w : Shared Fields) (new : List (Work Fields))
        → Stays b print n i s new
        → IsHealthy b print n w
        → ((id : ℕ)
            → owned id (assigned i new) + waiting id w.request_coalescer
              ≡ after b print n fatal i world.shared id)
        → ((key : Text)
            → under key w.request_coalescer
              ≡ flying key (remove_at k world.work) + flying key (assigned i new))
        → IsBalanced (record {
          shared = w;
          sessions = set world.sessions i s;
          work = remove_at k world.work ++ assigned i new;
          ended = if fatal then i ∷ world.ended else world.ended;
        })
    finished-IsBalanced fatal s w new (place, fits, starts) healthy owns flies = record {
      healthy = healthy;
      named = λ j t found. elim (ℕ_discrete i j) [
        | yes same ↦
            let here = get_elem?-set_self world.sessions i s (
              omega (
                arith,
                same,
                get_elem?_bound (set world.sessions i s) j found,
                length-set world.sessions i s,
              )) in
            (cc, cc)
        | no other ↦ h.named j t (sym (get_elem?-set_ne world.sessions i j s other) ∙ found)
      ];
      started =
          All-append _ (remove_at k world.work) (assigned i new)
            (All-remove_at _ k world.work h.started) (assigned-IsStarted i new starts);
      once = λ id. elim (Bool-cases fatal) [
        | inl ends ↦ ground (
          arith,
          h.once id,
          owns id,
          owned-append id (remove_at k world.work) (assigned i new),
          owned-remove_at id k i x world.work there,
          length-set world.sessions i s,
          ends,
        )
        | inr goes ↦ ground (
          arith,
          h.once id,
          owns id,
          owned-append id (remove_at k world.work) (assigned i new),
          owned-remove_at id k i x world.work there,
          length-set world.sessions i s,
          goes,
        )
      ];
      flown = λ key.
          omega (arith, flies key, flying-append key (remove_at k world.work) (assigned i new));
    }

    pub finish-IsBalanced :
        (fatal : Bool) (result : Result b print)
        → Ledger b print n i
            (after b print n fatal i world.shared)
            (λ key. flying key (remove_at k world.work))
            result
        → (world' : World Fields) × (finish b print k i fatal (some result) world ≡ ok world')
          × IsBalanced world'
    unfolding finish
    finish-IsBalanced fatal result (s, w, new, done, place, healthy, owns, flies) =
        (_, rw done refl, finished-IsBalanced fatal s w new place healthy owns flies)

    pub handled-IsBalanced :
        (clock : Clock) (input : Input Fields) (s : HttpSession Fields)
        (result : Option (Result b print))
        → get_elem? world.sessions i ≡ some s
        → Carries input
        → handler b print clock x input s world.shared ≡ result
        → (world' : World Fields) × (finish b print k i (is_fatal input) result world ≡ ok world')
          × IsBalanced world'
    unfolding finish
    handled-IsBalanced clock input s none is_s carries handled = (world, refl, h)
    handled-IsBalanced clock input s (some result) is_s carries handled =
        let (place, fits) = h.named i s is_s in
        let base : Text → ℕ = λ key. flying key (remove_at k world.work) in
        finish-IsBalanced (is_fatal input) result (
          subst
            (λ j. Ledger b print n j (after b print n (is_fatal input) j world.shared) base result)
            place
            (handler-Ledger b print n clock x input s world.shared base result h.healthy fits
              carries
              (λ key. omega (arith, h.flown key, flying-remove_at key k i x world.work there))
              handled))
