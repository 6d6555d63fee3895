-- ===== src/Args/Upstreams.antt =====
-- Which arguments name an upstream, and which upstream they name.
use mathlib.Core.Path.{subst}
use eventedge.Base.{
  ℕ, suc, ◌+◌, ◌-◌, ◌<◌, ◌≤◌, ◌≡◌, ◌≢◌, refl, sym, ap, ◌∙◌, ◌⊎◌, inl, inr, true, false, [], ◌∷◌,
  ◌++◌, some, not, Text, Outcome, ok, throw, runtime_error, arith, Bool-cases, ltb, leb, ◌==◌,
  ==_iff, if◌then◌else◌, length, length-append, get_elem?, find, rfind, take, drop, substr,
  substr_from, Lacks, find-split, rfind-split, find-append, rfind-append, take_at, drop_at,
  get_elem?_at, append-injective,
}
use eventedge.Decimal.{to_string}
use eventedge.Decimal.RoundTrip.{IsDigits, to_string-IsDigits}
use eventedge.Upstream.{UpstreamEndpoint}
use eventedge.Proxy.{upstream_host_header}
use eventedge.Args.Parse.{
  parse_port, parse_upstream, parse_plain, parse_bracketed, make_upstream, is_at, starts_with,
}
use eventedge.Args.Ports.{IsPort, parse_port_lem, parse_port-IsPort, to_string-IsPort}

-- The end of a host in brackets: a colon and the port.
abbrev after_bracket : Text → Text → Outcome UpstreamEndpoint
after_bracket host [] = throw runtime_error
after_bracket host (c ∷ port) =
    if not (c == b':') then throw runtime_error else make_upstream host port

abbrev bracketed : Text → Text → Text
bracketed host rest = b'[' ∷ (host ++ (b']' ∷ rest))

length-bracketed : (host rest : Text) → length (bracketed host rest) ≡ length host + length rest + 2
length-bracketed host rest = omega (arith, length-append host (b']' ∷ rest))

parse_bracketed_lem :
    (host rest : Text)
    → parse_bracketed (bracketed host rest) (suc (length host)) ≡ after_bracket host rest
unfolding parse_bracketed substr substr_from
parse_bracketed_lem host [] = ground (arith, length-bracketed host [])
parse_bracketed_lem host (c ∷ port) =
    let v = bracketed host (c ∷ port) in
    let size = length-bracketed host (c ∷ port) in
    let mark : get_elem? v (suc (length host) + 1) ≡ some c =
      get_elem?_at (b'[' ∷ host) (b']' ∷ c ∷ port) _ 1 (omega arith) in
    let host' : take (suc (length host) - 1) (drop 1 v) ≡ host =
      take_at host (b']' ∷ c ∷ port) _ (omega arith) in
    let port' : drop (suc (length host) + 2) v ≡ port =
      drop_at (b'[' ∷ host) (b']' ∷ c ∷ port) _ 2 (omega arith) in
    let inside : leb (length v) (suc (length host) + 1) ≡ false = ground (arith, size) in
    let in_host : ltb (length v) 1 ≡ false = ground arith in
    let in_port : ltb (length v) (suc (length host) + 2) ≡ false = ground (arith, size) in
    rw (inside, mark, parse_bracketed, in_host, host', in_port, port') refl

cut_plain :
    (host port : Text)
    → find b':' (host ++ (b':' ∷ port)) ≡ some (length host)
    → parse_plain (host ++ (b':' ∷ port)) (length host) ≡ make_upstream host port
unfolding parse_plain substr substr_from
cut_plain host port found =
    let v = host ++ (b':' ∷ port) in
    let size = length-append host (b':' ∷ port) in
    let same : (length host == length host) ≡ true = (==_iff (length host) (length host)).1 refl in
    let host' : take (length host) (drop 0 v) ≡ host = take_at host (b':' ∷ port) _ refl in
    let port' : drop (length host + 1) v ≡ port = drop_at host (b':' ∷ port) _ 1 refl in
    let in_host : ltb (length v) 0 ≡ false = ground arith in
    let in_port : ltb (length v) (length host + 1) ≡ false = ground (arith, size) in
    rw (found, same, in_host, host', in_port, port') refl

-- An argument names an upstream: `[host]:port` where the host has no closing bracket, or
-- `host:port` where the text does not begin with a bracket and has one colon.
pub data IsUpstream (s : Text) (e : UpstreamEndpoint) : Type 0 where
  in_brackets :
      (port : Text)
      → s ≡ bracketed e.host (b':' ∷ port)
      → Lacks b']' e.host
      → e.host ≢ []
      → IsPort port e.port
      → IsUpstream s e
  by_colon :
      (port : Text)
      → s ≡ e.host ++ (b':' ∷ port)
      → starts_with b'[' s ≡ false
      → Lacks b':' e.host
      → Lacks b':' port
      → e.host ≢ []
      → IsPort port e.port
      → IsUpstream s e

make_upstream_port :
    (host port : Text) (p : ℕ)
    → host ≢ []
    → parse_port port ≡ ok p
    → make_upstream host port ≡ ok (record { host = host; port = p })
unfolding make_upstream
make_upstream_port [] port p ne h = absurd (ne refl)
make_upstream_port (c ∷ host) port p ne h = rw h

make_upstream_cases :
    (host port : Text)
    → ((p : ℕ) × (host ≢ [])
        × IsPort port p
        × (make_upstream host port ≡ ok (record { host = host; port = p })))
      ⊎ (make_upstream host port ≡ throw runtime_error)
unfolding make_upstream
make_upstream_cases [] port = inr refl
make_upstream_cases (c ∷ host) port = elim (parse_port_lem port) [
  | inl (p, fits, h) ↦ inl (p, (λ e. cc), fits, rw h)
  | inr (bad, h) ↦ inr (rw h)
]

-- The parser returns an upstream that the argument names, or throws.
Reads : Text → Outcome UpstreamEndpoint → Type 0
Reads s r = ((e : UpstreamEndpoint) × IsUpstream s e × (r ≡ ok e)) ⊎ (r ≡ throw runtime_error)

bracketed-Reads :
    (s host rest : Text)
    → s ≡ bracketed host rest
    → Lacks b']' host
    → Reads s (after_bracket host rest)
unfolding Reads
bracketed-Reads s host [] e lacks = inr refl
bracketed-Reads s host (c ∷ port) e lacks = elim (Bool-cases (c == b':')) [
  | inr other ↦ inr (rw other)
  | inl colon ↦ elim (make_upstream_cases host port) [
    | inr bad ↦ inr (rw colon bad)
    | inl (p, ne, fits, made) ↦ inl (
      record { host = host; port = p },
      in_brackets port (e ∙ ap (λ t. bracketed host (t ∷ port)) ((==_iff c b':').0 colon)) lacks ne
          fits,
      rw colon made,
    )
  ]
]

-- The one colon of a text stands where the host ends.
one_colon :
    (s host port : Text)
    → s ≡ host ++ (b':' ∷ port)
    → is_at (find b':' s) (length host) ≡ true
    → Lacks b':' host
one_colon s host port e one = elim (find-split b':' s) [
  | inl (none_left, lacks) ↦ absurd (ground (arith, none_left, one))
  | inr (a, b, cut, lacks, found) ↦
      let long : length a ≡ length host = ground (arith, found, one) in
      let (same, rest) = append-injective a (b':' ∷ b) host (b':' ∷ port) (sym cut ∙ e) long in
      rw (← same) lacks
]

plain-Reads :
    (s host port : Text)
    → s ≡ host ++ (b':' ∷ port)
    → starts_with b'[' s ≡ false
    → Lacks b':' port
    → Reads s (parse_plain s (length host))
unfolding Reads parse_plain
plain-Reads s host port e start lacks = elim (Bool-cases (is_at (find b':' s) (length host))) [
  | inr other ↦ inr (rw other)
  | inl one ↦
      let alone = one_colon s host port e one in
      let read =
        ap (λ t. parse_plain t (length host)) e
        ∙ cut_plain host port (find-append b':' host port alone) in
      elim (make_upstream_cases host port) [
        | inr bad ↦ inr (read ∙ bad)
        | inl (p, ne, fits, made) ↦ inl (
          record { host = host; port = p },
          by_colon port e start alone lacks ne fits,
          read ∙ made,
        )
      ]
]

-- The parser on each of its two paths.
open_path :
    (s host rest : Text)
    → s ≡ bracketed host rest
    → find b']' s ≡ some (suc (length host))
    → parse_upstream s ≡ after_bracket host rest
unfolding parse_upstream
open_path s host rest e found =
    let starts : starts_with b'[' s ≡ true = rw e refl in
    rw (starts, found, parse_upstream)
      (ap (λ t. parse_bracketed t (suc (length host))) e ∙ parse_bracketed_lem host rest)

plain_path :
    (s host : Text)
    → starts_with b'[' s ≡ false
    → rfind b':' s ≡ some (length host)
    → parse_upstream s ≡ parse_plain s (length host)
unfolding parse_upstream
plain_path s host start found = rw (start, found, parse_upstream)

parse_upstream-Reads : (s : Text) → Reads s (parse_upstream s)
unfolding parse_upstream
parse_upstream-Reads s = elim (Bool-cases (starts_with b'[' s)) [
  | inl start ↦ elim (find-split b']' s) [
    | inl (none_left, lacks) ↦ unfold Reads in inr (rw (start, none_left, parse_upstream))
    | inr ([], rest, e, lacks, found) ↦ absurd (ground (arith, e, start))
    | inr (c ∷ host, rest, e, lacks, found) ↦
        let bracket : c ≡ b'[' = ground (arith, e, start) in
        let e' : s ≡ bracketed host rest = e ∙ ap (λ t. t ∷ (host ++ (b']' ∷ rest))) bracket in
        subst (Reads s) (sym (open_path s host rest e' found))
          (bracketed-Reads s host rest e' lacks.1)
  ]
  | inr start ↦ elim (rfind-split b':' s) [
    | inl (none_left, lacks) ↦ unfold Reads in inr (rw (start, none_left, parse_upstream))
    | inr (host, port, e, lacks, found) ↦
        subst (Reads s) (sym (plain_path s host start found))
          (plain-Reads s host port e start lacks)
  ]
]

-- What names an upstream is read as that upstream.
pub parse_upstream_complete :
    (s : Text) (e : UpstreamEndpoint) → IsUpstream s e → parse_upstream s ≡ ok e
parse_upstream_complete s e (in_brackets port cut lacks ne fits) =
    let found = ap (find b']') cut ∙ find-append b']' (b'[' ∷ e.host) (b':' ∷ port) (refl, lacks) in
    open_path s e.host (b':' ∷ port) cut found
    ∙ make_upstream_port e.host port e.port ne (parse_port-IsPort port e.port fits)
parse_upstream_complete s e (by_colon port cut start lacks lacks' ne fits) =
    let found = ap (rfind b':') cut ∙ rfind-append b':' e.host port lacks' in
    plain_path s e.host start found
    ∙ ap (λ t. parse_plain t (length e.host)) cut
    ∙ cut_plain e.host port (find-append b':' e.host port lacks)
    ∙ make_upstream_port e.host port e.port ne (parse_port-IsPort port e.port fits)

-- An argument is read as an upstream exactly when it names one, and then as that upstream; any
-- other argument throws, and none is read past its end.
pub parse_upstream_lem :
    (s : Text)
    → ((e : UpstreamEndpoint) × IsUpstream s e × (parse_upstream s ≡ ok e))
      ⊎ (((e : UpstreamEndpoint) → ¬ IsUpstream s e) × (parse_upstream s ≡ throw runtime_error))
unfolding Reads
parse_upstream_lem s = elim (parse_upstream-Reads s) [
  | inl found ↦ inl found
  | inr bad ↦ inr (λ e h. let good = parse_upstream_complete s e h in cc, bad)
]

digits-Lacks : (s : Text) → IsDigits s → Lacks b':' s
digits-Lacks [] h = tt
digits-Lacks (c ∷ s) h = (ground (arith, h.0), digits-Lacks s h.1)

starts_with-append : (a b : Text) (c : ℕ) → a ≢ [] → starts_with c (a ++ b) ≡ starts_with c a
starts_with-append [] b c ne = absurd (ne refl)
starts_with-append (x ∷ a) b c ne = refl

-- The Host field that the proxy sends to an upstream, given on the command line, names the same
-- upstream: for every host that is not empty, has no closing bracket and does not begin with an
-- opening one, with or without colons, and every port from 1 on.
pub parse_upstream-upstream_host_header :
    (e : UpstreamEndpoint)
    → e.host ≢ []
    → Lacks b']' e.host
    → starts_with b'[' e.host ≡ false
    → 0 < e.port
    → e.port ≤ 65535
    → parse_upstream (upstream_host_header e) ≡ ok e
unfolding upstream_host_header
parse_upstream-upstream_host_header e ne lacks start h l =
    let fits = to_string-IsPort e.port h l in
    let digits = digits-Lacks (to_string e.port) (to_string-IsDigits e.port) in
    parse_upstream_complete (upstream_host_header e) e (elim (find-split b':' e.host) [
      | inl (none_left, no_colon) ↦
          by_colon (to_string e.port) (rw (none_left, upstream_host_header))
            (rw (none_left, upstream_host_header)
              (starts_with-append e.host (b':' ∷ to_string e.port) b'[' ne ∙ start))
            no_colon digits ne fits
      | inr (a, b, cut, before, found) ↦
          in_brackets (to_string e.port) (rw (found, upstream_host_header)) lacks ne fits
    ])
