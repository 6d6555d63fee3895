-- ===== src/Proxy/Dropped.antt =====
-- Which fields `remove_hop_by_hop_headers` drops, described without its loops.
use eventedge.Base.{◌≡◌, refl, ◌⊎◌, inl, inr, true, false, List, [], ◌∷◌, ◌++◌, Text, Bool-cases}
use eventedge.Http.{Beast, connection, without, ErasesByName}
use eventedge.Proxy.Tokens.{split, connection_tokens}
use eventedge.Proxy.Stripping.{AreTokens, connection_tokens-AreTokens}
use eventedge.Proxy.Headers.{
  collect_tokens, remove_hop_by_hop_headers, hop_by_hop, is_named, entries-collect_tokens,
}

module _ (b : Beast) where
  open b use {Fields, name_of, same_name, entries}

  -- The tokens of the Connection fields among some fields, in order.
  abbrev pub Names : List (Text × Text) → List Text → Type 0
  Names [] ts = ts ≡ []
  Names ((name, value) ∷ headers) ts =
      ((same_name (name_of connection) name ≡ false) × Names headers ts)
      ⊎ ((same_name (name_of connection) name ≡ true)
          × (us : List Text) × (rest : List Text) × (ts ≡ us ++ rest)
          × AreTokens (split value) us
          × Names headers rest)

  collect_tokens-Names : (es : List (Text × Text)) → Names es (collect_tokens b es)
  unfolding collect_tokens
  collect_tokens-Names [] = refl
  collect_tokens-Names ((name, value) ∷ headers) =
      let rest = collect_tokens-Names headers in
      elim (Bool-cases (same_name (name_of connection) name)) [
        | inr other ↦ rw other (inl (refl, rest))
        | inl is ↦ rw is (
            inr (
              refl,
              connection_tokens value,
              collect_tokens b headers,
              refl,
              connection_tokens-AreTokens value,
              rest,
            ))
      ]

  -- For a library that erases every field of a name and no other, what is left is every other
  -- field, in order and with its value: gone are exactly the eight fields that belong to one
  -- connection and those that a Connection field names between its commas, without the blanks
  -- around the name.
  pub remove_hop_by_hop_headers-Names :
      ErasesByName b
      → (f : Fields)
      → (named : List Text) × Names (entries f) named
        × (entries (remove_hop_by_hop_headers b f)
            ≡ without (is_named b (named ++ hop_by_hop b)) (entries f))
  remove_hop_by_hop_headers-Names erases f = (
    collect_tokens b (entries f),
    collect_tokens-Names (entries f),
    entries-collect_tokens b erases f,
  )
