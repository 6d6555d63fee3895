-- ===== src/System/View.antt =====
-- The sessions of the program, as `Service` sees them: what a proxy has done so far is left out.
use eventedge.Base.{
  ℕ, zero, suc, ◌≡◌, refl, ap, ◌∙◌, Bool, List, [], ◌∷◌, ◌++◌, Option, none, some, Text, Outcome,
  ok, throw, undefined, ◌>>=◌, get_elem?, set,
}
use eventedge.Http.{Beast, HttpRequest}
use eventedge.Upstream.{UpstreamEndpoint}
use eventedge.Proxy
use eventedge.Proxy.{default_timeouts}
use eventedge.Metrics.Render.{Printer}
use eventedge.Session.{Work, read_request, shutdown_send, write, post, proxy, Result}
use eventedge.Service.World.{World, remove_at, assigned, finish}
use eventedge.System.State.{
  Task, awaits, relays, System, shared_of, run_proxy, launch, launch_all, resume,
}

abbrev pub work_of : {F : Type 0} → Task F → Work F
work_of (awaits x) = x
work_of (relays upstream request key p) = proxy upstream request key

abbrev pub works_of : {F : Type 0} → List (ℕ × Task F) → List (ℕ × Work F)
works_of [] = []
works_of ((i, x) ∷ xs) = (i, work_of x) ∷ works_of xs

abbrev pub view : {Address F : Type 0} → System Address F → World F
view s = record {
  shared = shared_of s;
  sessions = s.sessions;
  work = works_of s.tasks;
  ended = s.ended;
}

module _ {F : Type 0} where
  pub works_of-append :
      (xs ys : List (ℕ × Task F)) → works_of (xs ++ ys) ≡ works_of xs ++ works_of ys
  works_of-append [] ys = refl
  works_of-append ((i, x) ∷ xs) ys = ap (◌∷◌ (i, work_of x)) (works_of-append xs ys)

  pub works_of-remove_at :
      (k : ℕ) (xs : List (ℕ × Task F)) → works_of (remove_at k xs) ≡ remove_at k (works_of xs)
  unfolding remove_at
  works_of-remove_at k [] = refl
  works_of-remove_at zero ((i, x) ∷ xs) = refl
  works_of-remove_at (suc k) ((i, x) ∷ xs) = ap (◌∷◌ (i, work_of x)) (works_of-remove_at k xs)

  pub get_elem?-works_of :
      (k i : ℕ) (x : Task F) (xs : List (ℕ × Task F))
      → get_elem? xs k ≡ some (i, x)
      → get_elem? (works_of xs) k ≡ some (i, work_of x)
  get_elem?-works_of k i x [] h = cc
  get_elem?-works_of zero i x ((j, y) ∷ xs) h =
      let same_i : j ≡ i = cc in let same : y ≡ x = cc in λ q. some (same_i q, work_of (same q))
  get_elem?-works_of (suc k) i x ((j, y) ∷ xs) h = get_elem?-works_of k i x xs h

  pub works_of-get_elem? :
      (k i : ℕ) (x : Work F) (xs : List (ℕ × Task F))
      → get_elem? (works_of xs) k ≡ some (i, x)
      → (t : Task F) × (get_elem? xs k ≡ some (i, t)) × (work_of t ≡ x)
  works_of-get_elem? k i x [] h = cc
  works_of-get_elem? zero i x ((j, y) ∷ xs) h =
      let same_i : j ≡ i = cc in (y, (λ q. some (same_i q, y)), cc)
  works_of-get_elem? (suc k) i x ((j, y) ∷ xs) h = works_of-get_elem? k i x xs h

  -- What a proxy does does not show.
  pub works_of-set :
      (k i : ℕ) (x y : Task F) (xs : List (ℕ × Task F))
      → get_elem? xs k ≡ some (i, x)
      → work_of y ≡ work_of x
      → works_of (set xs k (i, y)) ≡ works_of xs
  works_of-set k i x y [] h same = refl
  works_of-set zero i x y ((j, z) ∷ xs) h same =
      let same_i : i ≡ j = cc in
      let other : x ≡ z = cc in λ q. (same_i q, (same ∙ ap work_of other) q) ∷ works_of xs
  works_of-set (suc k) i x y ((j, z) ∷ xs) h same =
      ap (◌∷◌ (j, work_of z)) (works_of-set k i x y xs h same)

  pub remove_at-set :
      (k : ℕ) (v : ℕ × Task F) (xs : List (ℕ × Task F)) → remove_at k (set xs k v) ≡ remove_at k xs
  unfolding remove_at
  remove_at-set k v [] = refl
  remove_at-set zero v (x ∷ xs) = refl
  remove_at-set (suc k) v (x ∷ xs) = ap (◌∷◌ x) (remove_at-set k v xs)

module _ (b : Beast) where
  open b use {Fields}

  work_of-run_proxy :
      (upstream : UpstreamEndpoint) (request : HttpRequest Fields) (key : Option Text)
      (o : Outcome (Proxy.Step b))
      → work_of (run_proxy b upstream request key o) ≡ proxy upstream request key
  work_of-run_proxy upstream request key (ok (p, actions)) = refl
  work_of-run_proxy upstream request key (throw e) = refl
  work_of-run_proxy upstream request key undefined = refl

  work_of-launch : (x : Work Fields) → work_of (launch b x) ≡ x
  work_of-launch (proxy upstream request key) =
      work_of-run_proxy upstream request key
        (Proxy.run b (Proxy.create b upstream request default_timeouts))
  work_of-launch read_request = refl
  work_of-launch shutdown_send = refl
  work_of-launch (write response eof) = refl
  work_of-launch (post id response) = refl

  pub works_of-launch_all : (xs : List (ℕ × Work Fields)) → works_of (launch_all b xs) ≡ xs
  unfolding launch_all
  works_of-launch_all [] = refl
  works_of-launch_all ((i, x) ∷ xs) = λ j. (i, work_of-launch x j) ∷ works_of-launch_all xs j

  -- A handler leaves of the system what it leaves of the sessions.
  pub resume-finish :
      (print : Printer) {Address : Type 0} (k i : ℕ) (fatal : Bool)
      (result : Option (Result b print)) (s : System Address Fields)
      → (resume b print k i fatal result s >>= λ s'. ok (view s'))
        ≡ finish b print k i fatal result (view s)
  unfolding resume finish
  resume-finish print k i fatal none s = refl
  resume-finish print k i fatal (some (throw e)) s = refl
  resume-finish print k i fatal (some undefined) s = refl
  resume-finish print k i fatal (some (ok (x, w, new))) s =
      let kept = works_of-remove_at k s.tasks in
      let started = works_of-launch_all (assigned i new) in rw (works_of-append, kept, started) refl
