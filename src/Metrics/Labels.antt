-- ===== src/Metrics/Labels.antt =====
-- The constructor's loop over the upstreams.
use mathlib.Core.List.{append_assoc}
use eventedge.Base.{
  ℕ, Text, ◌+◌, ◌≡◌, refl, sym, ap, ◌∙◌, List, [], ◌∷◌, ◌++◌, map, ok, some, length, length-append,
  get_elem?, arith,
}
use eventedge.Upstream.{UpstreamPool, Backend, endpoint}
use eventedge.Metrics.Registry.{
  UpstreamMetrics, start, MetricsRegistry, endpoint_label, label_from, create,
  record_response_status, select_label,
}

abbrev pub labelled : List Backend → List UpstreamMetrics
labelled bs = map (λ b. record { label = endpoint_label b.endpoint; selections = 0 }) bs

get_elem?-length :
    (before bs : List Backend) (b : Backend)
    → get_elem? (before ++ (b ∷ bs)) (length before) ≡ some b
get_elem?-length [] bs b = refl
get_elem?-length (a ∷ before) bs b = get_elem?-length before bs b

label_from-labelled :
    (before bs : List Backend) (pool : UpstreamPool)
    → pool.backends ≡ before ++ bs
    → label_from (length bs) (length before) pool ≡ ok (labelled bs)
unfolding label_from endpoint
label_from-labelled before [] pool h = refl
label_from-labelled before (b ∷ bs) pool h =
    let found : get_elem? pool.backends (length before) ≡ some b =
      ap (λ xs. get_elem? xs (length before)) h ∙ get_elem?-length before bs b in
    let here : endpoint pool (length before) ≡ ok b.endpoint = ground (arith, found) in
    let place : length before + 1 ≡ length (before ++ (b ∷ [])) =
      omega (arith, length-append before (b ∷ [])) in
    let rest =
      label_from-labelled (before ++ (b ∷ [])) bs pool
        (h ∙ sym (append_assoc before (b ∷ []) bs)) in
    let later : label_from (length bs) (length before + 1) pool ≡ ok (labelled bs) =
      ap (λ i. label_from (length bs) i pool) place ∙ rest in
    simp (here, later)

-- The constructor does not throw: it has one label for every backend of the pool, in order, and
-- every counter at zero.
pub create-start : (pool : UpstreamPool) → create pool ≡ ok (start (labelled pool.backends))
unfolding create
create-start pool = simp (label_from-labelled [] pool.backends pool refl)

-- The labels of the metrics stay.
pub labels-status :
    (status : ℕ) (m : MetricsRegistry)
    → length (record_response_status status m).upstreams ≡ length m.upstreams
unfolding record_response_status
labels-status status m = ground arith

pub labels-selection :
    (label : Text) (vs : List UpstreamMetrics) → length (select_label label vs) ≡ length vs
unfolding select_label
labels-selection label [] = refl
labels-selection label (v ∷ vs) = ground (arith, labels-selection label vs)
