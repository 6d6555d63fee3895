-- ===== src/Session/Storing.antt =====
-- Which responses may be stored, described without the code's searches.
use eventedge.Base.{
  ◌≡◌, refl, ap, ◌∙◌, ◌⊎◌, inl, inr, Bool, true, false, ◌&&◌, not, [], ◌∷◌, ◌++◌, Option, none,
  some, Text, codes, ◌==◌, Bool-cases, ==_iff, Option-cases, arith,
}
use eventedge.Http.{Beast, HttpResponse, Field}
use eventedge.Metrics.Render.{Printer}
use eventedge.Session.Objects.{has_prefix, contains}
use eventedge.Session.Routing.{cacheable_response, value_or_empty}

-- The word stands somewhere in the text.
abbrev pub Mentions : Text → Text → Type 0
Mentions word text = (a : Text) × (z : Text) × (text ≡ a ++ (word ++ z))

has_prefix-append : (word z : Text) → has_prefix word (word ++ z) ≡ true
unfolding has_prefix
has_prefix-append [] z = refl
has_prefix-append (c ∷ word) z = ground (arith, has_prefix-append word z)

prefixed : (word text : Text) → has_prefix word text ≡ true → (z : Text) × (text ≡ word ++ z)
unfolding has_prefix
prefixed [] text h = (text, refl)
prefixed (c ∷ word) [] h = cc
prefixed (c ∷ word) (d ∷ text) h =
    let (z, e) = prefixed word text (ground (arith, h)) in
    let same : d ≡ c = ground (arith, h) in (z, λ i. same i ∷ e i)

contains-prefix : (word text : Text) → has_prefix word text ≡ true → contains word text ≡ true
unfolding contains
contains-prefix word [] h = h
contains-prefix word (d ∷ text) h = ground (arith, h)

contains-append : (word a z : Text) → contains word (a ++ (word ++ z)) ≡ true
unfolding contains
contains-append word [] z = contains-prefix word (word ++ z) (has_prefix-append word z)
contains-append word (c ∷ a) z = ground (arith, contains-append word a z)

contains-Mentions : (word text : Text) → contains word text ≡ true → Mentions word text
unfolding contains
contains-Mentions word [] h = let (z, e) = prefixed word [] h in ([], z, e)
contains-Mentions word (d ∷ text) h = elim (Bool-cases (has_prefix word (d ∷ text))) [
  | inl here ↦ let (z, e) = prefixed word (d ∷ text) here in ([], z, e)
  | inr later ↦
      let (a, z, e) = contains-Mentions word text (ground (arith, later, h)) in
      (d ∷ a, z, ap (◌∷◌ d) e)
]

lacking : (word text : Text) → contains word text ≡ false → ¬ (Mentions word text)
lacking word text h (a, z, e) =
    let found : contains word text ≡ true = ap (contains word) e ∙ contains-append word a z in cc

module _ (b : Beast) (print : Printer) where
  open b use {Fields, find, name_of}

  -- The value of the first Cache-Control field, if there is one.
  abbrev pub IsControlled : HttpResponse Fields → Text → Type 0
  IsControlled response value = find (name_of Field.cache_control) response.fields ≡ some value

  -- The status is 200, no cookie is set, and Cache-Control has neither of the two words.
  pub record MayBeStored (response : HttpResponse Fields) : Type 0 where
    pub is_success : response.status ≡ 200
    pub sets_no_cookie : find (name_of Field.set_cookie) response.fields ≡ none
    pub is_allowed :
        (value : Text)
        → IsControlled response value
        → (¬ (Mentions (codes "no-store") value)) × (¬ (Mentions (codes "private") value))

  abbrev IsAllowed : Option Text → Type 0
  IsAllowed control =
      (value : Text)
      → control ≡ some value
      → (¬ (Mentions (codes "no-store") value)) × (¬ (Mentions (codes "private") value))

  abbrev is_allowed_by : Option Text → Bool
  is_allowed_by control =
      not (contains (codes "no-store") (value_or_empty b print control))
      && not (contains (codes "private") (value_or_empty b print control))

  is_allowed_by-IsAllowed :
      (control : Option Text)
      → ((is_allowed_by control ≡ true) × IsAllowed control)
        ⊎ ((is_allowed_by control ≡ false) × (¬ (IsAllowed control)))
  unfolding contains has_prefix
  is_allowed_by-IsAllowed none = inl (refl, λ value e. cc)
  is_allowed_by-IsAllowed (some u) = elim (Bool-cases (contains (codes "no-store") u)) [
    | inl y ↦ inr (rw y refl, λ f. (f u refl).0 (contains-Mentions (codes "no-store") u y))
    | inr n ↦ elim (Bool-cases (contains (codes "private") u)) [
      | inl y ↦ inr (rw (n, y) refl, λ f. (f u refl).1 (contains-Mentions (codes "private") u y))
      | inr m ↦ inl (
        rw (n, m) refl,
        λ value e.
            let same : value ≡ u = cc in
            rw same (lacking (codes "no-store") u n, lacking (codes "private") u m),
      )
    ]
  ]

  -- The code finds a response cacheable if and only if its status is 200, it has no Set-Cookie field
  -- and the value of its first Cache-Control field, if there is one, mentions neither no-store nor
  -- private at any place.
  pub cacheable_response-MayBeStored :
      (response : HttpResponse Fields)
      → ((cacheable_response b print response ≡ true) × MayBeStored response)
        ⊎ ((cacheable_response b print response ≡ false) × (¬ (MayBeStored response)))
  unfolding cacheable_response
  cacheable_response-MayBeStored response = elim (Bool-cases (response.status == 200)) [
    | inr n ↦ inr (rw n refl, λ m. let agree = (==_iff response.status 200).1 m.is_success in cc)
    | inl y ↦ elim (Option-cases (find (name_of Field.set_cookie) response.fields)) [
      | inr (cookie, e) ↦ inr (rw (y, e) refl, λ m. let free = m.sets_no_cookie in cc)
      | inl e ↦
          elim (is_allowed_by-IsAllowed (find (name_of Field.cache_control) response.fields)) [
            | inl (t, allowed) ↦ inl (
              rw (y, e) t,
              record {
                is_success = (==_iff response.status 200).0 y;
                sets_no_cookie = e;
                is_allowed = allowed;
              },
            )
            | inr (t, refused) ↦ inr (rw (y, e) t, λ m. refused m.is_allowed)
          ]
    ]
  ]
