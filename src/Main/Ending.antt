-- ===== src/Main/Ending.antt =====
-- `main` on every list of arguments.
use eventedge.Base.{
  ℕ, ◌≡◌, ◌≢◌, refl, ap, ◌⊎◌, inl, inr, true, false, List, [], ◌∷◌, Text, Outcome, ok, throw,
  Exception, runtime_error, ◌>>=◌, codes,
}
use eventedge.Args.{
  Configuration, usage, configured, read_arguments, parse_port, parse_worker_count, parse_upstream,
  parse_upstreams, default_worker_count,
}
use eventedge.Args.Ports.{parse_port_lem, parse_worker_count_lem}
use eventedge.Args.Upstreams.{parse_upstream_lem}
use eventedge.Upstream.{UpstreamEndpoint}
use eventedge.Server.{AcceptorErrors}
use eventedge.Server.Loop.{any_error}
use eventedge.Main.Launch.{Program, exits, serves, catch_all, launch, main}
use eventedge.Main.Ready.{Ends, IsReady, assemble-cases}

-- A chain of calls that end, ends.
>>=-Ends :
    {A B : Type 0} (m : Outcome A) (f : A → Outcome B)
    → Ends m
    → ((a : A) → Ends (f a))
    → Ends (m >>= f)
>>=-Ends m f (inl (a, done)) h = elim (h a) [
  | inl (b, e) ↦ inl (b, rw done e)
  | inr (x, e) ↦ inr (x, rw done e)
]
>>=-Ends m f (inr (x, thrown)) h = inr (x, rw thrown refl)

parse_port-Ends : (s : Text) → Ends (parse_port s)
parse_port-Ends s = elim (parse_port_lem s) [
  | inl (p, h, e) ↦ inl (p, e)
  | inr (h, e) ↦ inr (runtime_error, e)
]

parse_worker_count-Ends : (s : Text) → Ends (parse_worker_count s)
parse_worker_count-Ends s = elim (parse_worker_count_lem s) [
  | inl (n, h, e) ↦ inl (n, e)
  | inr (h, e) ↦ inr (runtime_error, e)
]

parse_upstream-Ends : (s : Text) → Ends (parse_upstream s)
parse_upstream-Ends s = elim (parse_upstream_lem s) [
  | inl (u, h, e) ↦ inl (u, e)
  | inr (h, e) ↦ inr (runtime_error, e)
]

parse_upstreams-Ends : (ts : List Text) → Ends (parse_upstreams ts)
unfolding parse_upstreams
parse_upstreams-Ends [] = inl ([], refl)
parse_upstreams-Ends (t ∷ ts) =
    >>=-Ends (parse_upstream t) _ (parse_upstream-Ends t)
      (λ e. >>=-Ends (parse_upstreams ts) _ (parse_upstreams-Ends ts) (λ es. inl (e ∷ es, refl)))

-- Upstreams that were read from an argument are there.
parse_upstreams-ne :
    (t : Text) (ts : List Text) (es : List UpstreamEndpoint)
    → parse_upstreams (t ∷ ts) ≡ ok es
    → es ≢ []
unfolding parse_upstreams
parse_upstreams-ne t ts es h none_left = elim (parse_upstream-Ends t) [
  | inr (x, thrown) ↦ cc (rw thrown at h)
  | inl (e, one) ↦ elim (parse_upstreams-Ends ts) [
    | inr (x, thrown) ↦ cc (rw (one, thrown) at h)
    | inl (rest, more) ↦ cc (rw (one, more) at h)
  ]
]

default_ne :
    ◌≢◌ {A = List UpstreamEndpoint} (record { host = codes "127.0.0.1"; port = 9000 } ∷ []) []
default_ne h = cc

module _ {Address : Type 0} (make_address : Text → Outcome Address) (hardware : ℕ)
    (ends : (t : Text) → Ends (make_address t)) where
  -- What reading the arguments comes to.
  abbrev pub Parsed : List Text → Type 0
  Parsed arguments =
      (read_arguments make_address hardware arguments ≡ usage)
      ⊎ ((e : Exception) × (read_arguments make_address hardware arguments ≡ configured (throw e)))
      ⊎ ((c : Configuration Address) × (read_arguments make_address hardware arguments
            ≡ configured (ok c))
          × (c.upstreams ≢ []))

  read_arguments-Parsed : (arguments : List Text) → Parsed arguments
  unfolding read_arguments
  read_arguments-Parsed [] = elim (ends (codes "127.0.0.1")) [
    | inl (a, e) ↦
        let c : Configuration Address = record {
          address = a;
          port = 8080;
          worker_count = default_worker_count hardware;
          upstreams = record { host = codes "127.0.0.1"; port = 9000 } ∷ [];
        } in
        inr (inr (c, ap configured (rw e refl), default_ne))
    | inr (x, e) ↦ inr (inl (x, ap configured (rw e refl)))
  ]
  read_arguments-Parsed (a ∷ p ∷ n ∷ u ∷ more) = elim (ends a) [
    | inr (x, e) ↦ inr (inl (x, ap configured (rw e refl)))
    | inl (address, e1) ↦ elim (parse_port-Ends p) [
      | inr (x, e) ↦ inr (inl (x, ap configured (rw (e1, e) refl)))
      | inl (port, e2) ↦ elim (parse_worker_count-Ends n) [
        | inr (x, e) ↦ inr (inl (x, ap configured (rw (e1, e2, e) refl)))
        | inl (count, e3) ↦ elim (parse_upstreams-Ends (u ∷ more)) [
          | inr (x, e) ↦ inr (inl (x, ap configured (rw (e1, e2, e3, e) refl)))
          | inl (us, e4) ↦ inr (
              inr (
                record { address = address; port = port; worker_count = count; upstreams = us },
                ap configured (rw (e1, e2, e3, e4) refl),
                parse_upstreams-ne u more us e4,
              ))
        ]
      ]
    ]
  ]
  read_arguments-Parsed _ = inl refl

  module _ (F : Type 0) (errors : AcceptorErrors) where
    -- `main` exits with 1 if it prints its usage, if an argument is refused, or if a call of the
    -- acceptor fails; in every other case it serves, with everything ready for the configuration that
    -- it has read; and it is never undefined.
    pub main_lem :
        (arguments : List Text)
        → ((main {F = F} make_address hardware errors arguments ≡ exits 1)
            × ((read_arguments make_address hardware arguments ≡ usage)
                ⊎ ((e : Exception) × (read_arguments make_address hardware arguments
                      ≡ configured (throw e)))
                ⊎ (any_error errors ≡ true)))
          ⊎ ((c : Configuration Address) × (p : Program Address F) × (read_arguments make_address
                  hardware arguments
                ≡ configured (ok c))
              × (any_error errors ≡ false)
              × (main make_address hardware errors arguments ≡ serves p)
              × IsReady c p)
    unfolding main launch catch_all
    main_lem arguments = elim (read_arguments-Parsed arguments) [
      | inl shown ↦ inl (rw shown refl, inl shown)
      | inr (inl (e, refused)) ↦ inl (rw refused refl, inr (inl (e, refused)))
      | inr (inr (c, read, some_left)) ↦ elim (assemble-cases F errors c some_left) [
        | inl (failed, thrown) ↦ inl (rw (read, thrown) refl, inr (inr failed))
        | inr (fine, p, done, ready) ↦ inr (c, p, read, fine, rw (read, done) refl, ready)
      ]
    ]
