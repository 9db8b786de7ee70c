-- ===== src/Monitor/Stale.antt =====
-- The keys of exported series and `cleanupStaleMetrics` of main.go. A key joins the three label
-- values by bars, and the cleanup takes it apart at its first two bars.
use Prim.Native.Char.{code}
use Prim.Native.String.{◌++◌}
use pentameter.Prelude.{String, Bool, false, Option, none, some, [], ◌∷◌, eqb, if◌then◌else◌, ◌||◌}
use pentameter.Prelude.Int.{ℤ}
use pentameter.Prelude.Map.{Map, lookup_or}
use pentameter.Monitor.Gauge.{Gauge, Labels, delete}

-- `objnam + "|" + name + "|" + subtype`
abbrev pub metric_key : String → String → String → String
metric_key objnam name subtype = objnam ++ ("|" ++ (name ++ ("|" ++ subtype)))

unfoldable pub has_bar : String → Bool
has_bar String.[] = false
has_bar (String.◌∷◌ c s) = let rest = has_bar s in eqb (code c) b'|' || rest

-- A text cut at its first bar.
unfoldable pub cut_at_bar : String → Option (String × String)
cut_at_bar String.[] = none
cut_at_bar (String.◌∷◌ c s) =
    let rest = cut_at_bar s in
    if eqb (code c) b'|'
    then some (String.[], s)
    else elim rest [ none ↦ none | some (a, b) ↦ some (String.◌∷◌ c a, b) ]

-- `strings.SplitN(key, "|", 3)`, where it has three parts.
unfoldable pub split_key : String → Option Labels
unfolding cut_at_bar
split_key key = elim (cut_at_bar key) [
  | none ↦ none
  | some (a, rest) ↦ elim (cut_at_bar rest) [ none ↦ none | some (b, c) ↦ some (a ∷ b ∷ c ∷ []) ]
]

abbrev pub delete_split : Option Labels → Gauge ℤ → Gauge ℤ
delete_split none g = g
delete_split (some l) g = delete l g

-- `cleanupStaleMetrics`, over the keys of the previous refresh in the order of the map.
unfoldable pub cleanup_stale_metrics : Map Bool → Map Bool → Gauge ℤ → Gauge ℤ
cleanup_stale_metrics [] current g = g
cleanup_stale_metrics ((key, active) ∷ previous) current g =
    cleanup_stale_metrics previous current
      (if lookup_or false key current then g else delete_split (split_key key) g)
