-- ===== src/Homebridge/Heaters.antt =====
-- Which heater a body gets: `realHeatersByBody` of homebridge.go.
use pentameter.Prelude.{
  String, Bool, Option, none, some, List, [], ◌∷◌, ◌≡◌, ◌==◌, ◌&&◌, any, arith, eq_iff,
  if◌then◌else◌, ◌∙◌, ap, refl, inl, inr, Option-cases,
}
use pentameter.Prelude.Map.{Map, lookup, insert, lookup-insert, keys}
use pentameter.Prelude.Text.{fields}
use pentameter.IntelliCenter.Types.{Heater}
use pentameter.Homebridge.Items.{serve, serve_all, values_at, sort, by_id, real_heaters_by_body}
use pentameter.Homebridge.Sorted.{IsAscending, occurrences, sort-IsAscending, occurrences-sort}

-- The heater is a real one, and the body is among the bodies that it lists.
abbrev pub serves : String → Heater → Bool
serves body h = h.real && any (λ b. b == body) (fields h.body)

-- The first heater of a list that serves the body.
abbrev pub first_serving : String → List Heater → Option Heater
first_serving body [] = none
first_serving body (h ∷ hs) = if serves body h then some h else first_serving body hs

abbrev or_else : Option Heater → Option Heater → Option Heater
or_else (some h) other = some h
or_else none other = other

module _ (body : String) where
  lookup-serve :
      (h : Heater) (bodies : List String) (out : Map Heater)
      → lookup body (serve h bodies out)
        ≡ or_else (lookup body out) (if any (λ b. b == body) bodies then some h else none)
  unfolding serve
  lookup-serve h [] out = ground arith
  lookup-serve h (b ∷ bodies) out =
      let out' : Map Heater = elim (lookup b out) [ none ↦ insert b h out | some other ↦ out ] in
      ground (arith, lookup-serve h bodies out', lookup-insert b body h out, eq_iff b body)

  lookup-serve_all :
      (hs : List Heater) (out : Map Heater)
      → lookup body (serve_all hs out) ≡ or_else (lookup body out) (first_serving body hs)
  unfolding serve_all
  lookup-serve_all [] out = ground arith
  lookup-serve_all (h ∷ hs) out =
      let out' = if h.real then serve h (fields h.body) out else out in
      ground (arith, lookup-serve_all hs out', lookup-serve h (fields h.body) out)

  -- The first heater, in the order of a list of ids, that serves the body.
  unfoldable pub first_of : List String → Map Heater → Option Heater
  unfolding lookup
  first_of [] heaters = none
  first_of (id ∷ ids) heaters =
      let rest = first_of ids heaters in
      elim (lookup id heaters) [ none ↦ rest | some h ↦ if serves body h then some h else rest ]

  first_serving-values_at :
      (ids : List String) (heaters : Map Heater)
      → first_serving body (values_at ids heaters) ≡ first_of ids heaters
  unfolding values_at first_of
  first_serving-values_at [] heaters = refl
  first_serving-values_at (id ∷ ids) heaters =
      let rest = first_serving-values_at ids heaters in
      elim (Option-cases (lookup id heaters)) [
        | inl missing ↦ rw (missing, values_at, first_of) rest
        | inr (h, there) ↦
            rw (there, values_at, first_of) (ap (λ o. if serves body h then some h else o) rest)
      ]

  -- The ids of the heaters can be listed in ascending order, each as often as it is a key of the map,
  -- and the heater that a body gets is the first one in this order that is real and lists the body; a
  -- body that no real heater lists gets none.
  pub lookup-real_heaters_by_body :
      (heaters : Map Heater)
      → (ids : List String) × IsAscending ids
        × ((id : String) → occurrences id ids ≡ occurrences id (keys heaters))
        × (lookup body (real_heaters_by_body heaters) ≡ first_of ids heaters)
  unfolding real_heaters_by_body by_id
  lookup-real_heaters_by_body heaters = (
    sort (keys heaters),
    sort-IsAscending (keys heaters),
    λ id. occurrences-sort id (keys heaters),
    lookup-serve_all (values_at (sort (keys heaters)) heaters) []
        ∙ first_serving-values_at (sort (keys heaters)) heaters,
  )
