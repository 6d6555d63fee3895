-- ===== src/Proxy/Headers.antt =====
-- `remove_hop_by_hop_headers`, over the fields of the HTTP library.
use eventedge.Base.{
  ◌≡◌, refl, sym, ap, ◌∙◌, Bool, false, ◌||◌, not, List, [], ◌∷◌, ◌++◌, Text, if◌then◌else◌, arith,
}
use eventedge.Http.{
  Beast, connection, keep_alive, proxy_authenticate, proxy_authorization, te, trailer,
  transfer_encoding, upgrade, without, ErasesByName,
}
use eventedge.Proxy.Tokens.{connection_tokens}

module _ (b : Beast) where
  open b use {Fields, name_of, same_name, entries, erase}

  -- The first loop: the tokens of every Connection field.
  unfoldable pub collect_tokens : List (Text × Text) → List Text
  collect_tokens [] = []
  collect_tokens ((name, value) ∷ headers) =
      let rest = collect_tokens headers in
      if not (same_name (name_of connection) name) then rest else connection_tokens value ++ rest

  -- The second loop.
  unfoldable pub erase_each : List Text → Fields → Fields
  erase_each [] headers = headers
  erase_each (token ∷ tokens) headers = erase_each tokens (erase token headers)

  unfoldable pub remove_hop_by_hop_headers : Fields → Fields
  remove_hop_by_hop_headers headers =
      let h0 = erase_each (collect_tokens (entries headers)) headers in
      let h1 = erase (name_of connection) h0 in
      let h2 = erase (name_of keep_alive) h1 in
      let h3 = erase (name_of proxy_authenticate) h2 in
      let h4 = erase (name_of proxy_authorization) h3 in
      let h5 = erase (name_of te) h4 in
      let h6 = erase (name_of trailer) h5 in
      let h7 = erase (name_of transfer_encoding) h6 in erase (name_of upgrade) h7

  -- The names of the fields that belong to one connection only.
  abbrev pub hop_by_hop : List Text
  hop_by_hop =
      name_of connection
      ∷ name_of keep_alive
      ∷ name_of proxy_authenticate
      ∷ name_of proxy_authorization
      ∷ name_of te
      ∷ name_of trailer
      ∷ name_of transfer_encoding
      ∷ name_of upgrade
      ∷ []

  unfoldable pub is_named : List Text → Text → Bool
  is_named [] name = false
  is_named (n ∷ ns) name = same_name n name || is_named ns name

  without-without :
      (g h : Text → Bool) (es : List (Text × Text))
      → without g (without h es) ≡ without (λ n. h n || g n) es
  unfolding without
  without-without g h [] = refl
  without-without g h ((n, v) ∷ es) = ground (arith, without-without g h es)

  without_nothing : (es : List (Text × Text)) → without (λ n. false) es ≡ es
  unfolding without
  without_nothing [] = refl
  without_nothing (e ∷ es) = ap (◌∷◌ e) (without_nothing es)

  module _ (erases : ErasesByName b) where
    entries-erase_each :
        (ns : List Text) (f : Fields)
        → entries (erase_each ns f) ≡ without (is_named ns) (entries f)
    unfolding erase_each is_named
    entries-erase_each [] f = sym (without_nothing (entries f))
    entries-erase_each (n ∷ ns) f =
        entries-erase_each ns (erase n f)
        ∙ ap (without (is_named ns)) (erases n f)
        ∙ without-without (is_named ns) (same_name n) (entries f)

    erase_each-append :
        (ms ns : List Text) (f : Fields) → erase_each (ms ++ ns) f ≡ erase_each ns (erase_each ms f)
    unfolding erase_each
    erase_each-append [] ns f = refl
    erase_each-append (m ∷ ms) ns f = erase_each-append ms ns (erase m f)

    -- What is left, by the tokens that the first loop collects.
    pub entries-collect_tokens :
        (f : Fields)
        → entries (remove_hop_by_hop_headers f)
          ≡ without (is_named (collect_tokens (entries f) ++ hop_by_hop)) (entries f)
    unfolding remove_hop_by_hop_headers erase_each
    entries-collect_tokens f =
        ap entries (sym (erase_each-append (collect_tokens (entries f)) hop_by_hop f))
        ∙ entries-erase_each (collect_tokens (entries f) ++ hop_by_hop) f
