-- ===== src/Monitor/Series.antt =====
-- Which series the cleanup of stale metrics deletes.
use Prim.Native.Char.{Char, char, code}
use text.Mathlib.TextEquality.{Char-path}
use Prim.Native.String.{◌++◌}
use text.Mathlib.TextLemmas.{nil-append, cons-append}
use pentameter.Prelude.{
  String, Bool, true, false, none, some, [], ◌∷◌, ◌≡◌, ◌≢◌, refl, sym, ap, ◌∙◌, eqb, ◌==◌, ◌&&◌,
  ◌||◌, not, arith, eq_iff, Bool-cases, Option-cases, inl, inr, if◌then◌else◌,
}
use pentameter.Prelude.Int.{ℤ}
use pentameter.Prelude.Map.{Map, lookup_or}
use pentameter.Monitor.Gauge.{Gauge, Labels, value, eq_labels→eq, eq_labels_refl, value-delete}
use pentameter.Monitor.Stale.{
  metric_key, has_bar, cut_at_bar, split_key, delete_split, cleanup_stale_metrics,
}

abbrev bar : Char
bar = char 124 tt

bar-append : (t : String) → "|" ++ t ≡ String.◌∷◌ bar t
bar-append t = cons-append bar "" t ∙ ap (String.◌∷◌ bar) (nil-append t)

-- A text without a bar is what stands before the first bar behind it.
cut_at_bar-append : (a t : String) → has_bar a ≡ false → cut_at_bar (a ++ ("|" ++ t)) ≡ some (a, t)
unfolding has_bar cut_at_bar
cut_at_bar-append String.[] t h = rw nil-append (rw bar-append refl)
cut_at_bar-append (String.◌∷◌ c a) t h = rw cons-append (ground (arith, cut_at_bar-append a t))

-- What is cut is the text, and the first part has no bar.
cut_at_bar-some :
    (s a b : String) → cut_at_bar s ≡ some (a, b) → (s ≡ a ++ ("|" ++ b)) × (has_bar a ≡ false)
unfolding has_bar cut_at_bar
cut_at_bar-some String.[] a b h = cc
cut_at_bar-some (String.◌∷◌ c s) a b h = elim (Bool-cases (eqb (code c) b'|')) [
  | inl here ↦
      let ea : "" ≡ a = cc (rw (here, cut_at_bar) at h) in
      let eb : s ≡ b = cc (rw (here, cut_at_bar) at h) in
      let ec : c ≡ bar = Char-path c bar (ground arith) in
      (
        rw (← ea) (
            rw (← eb)
              (ap (λ d. String.◌∷◌ d s) ec ∙ sym (bar-append s) ∙ sym (nil-append ("|" ++ s)))),
        rw (← ea) refl,
      )
  | inr other ↦ elim (Option-cases (cut_at_bar s)) [
    | inl nothing ↦ ground arith
    | inr ((a', b'), found) ↦
        let (whole, clean) = cut_at_bar-some s a' b' found in
        let ea : String.◌∷◌ c a' ≡ a = ground arith in
        let eb : b' ≡ b = ground arith in
        (
          rw (← ea) (rw (← eb) (ap (String.◌∷◌ c) whole ∙ sym (cons-append c a' ("|" ++ b')))),
          rw (← ea) (ground arith),
        )
  ]
]

-- If neither the id nor the name of a series has a bar, its key is taken apart into its labels.
pub split_key-metric_key :
    (objnam name subtype : String)
    → has_bar objnam ≡ false
    → has_bar name ≡ false
    → split_key (metric_key objnam name subtype) ≡ some (objnam ∷ name ∷ subtype ∷ [])
unfolding split_key
split_key-metric_key objnam name subtype clean clean' = ground (
  arith,
  cut_at_bar-append objnam (name ++ ("|" ++ subtype)) clean,
  cut_at_bar-append name subtype clean',
)

-- What a key is cut into is the key, and neither of its first two parts has a bar.
pub split_key-some :
    (key : String) (l : Labels)
    → split_key key ≡ some l
    → (a : String) × (b : String) × (c : String) × (l ≡ a ∷ b ∷ c ∷ [])
      × (key ≡ metric_key a b c)
      × (has_bar b ≡ false)
unfolding split_key
split_key-some key l h = elim (Option-cases (cut_at_bar key)) [
  | inl nothing ↦ ground arith
  | inr ((a, rest), first) ↦ elim (Option-cases (cut_at_bar rest)) [
    | inl nothing ↦ ground arith
    | inr ((b, c), second) ↦
        let (whole, clean) = cut_at_bar-some key a rest first in
        let (whole', clean') = cut_at_bar-some rest b c second in
        (a, b, c, ground arith, whole ∙ ap (λ t. a ++ ("|" ++ t)) whole', clean')
  ]
]

module _ (objnam name subtype : String) where
  abbrev series : Labels
  series = objnam ∷ name ∷ subtype ∷ []

  abbrev series_key : String
  series_key = metric_key objnam name subtype

  -- The deletion for one key, for a series whose id and name have no bar.
  value-delete_split :
      (key : String) (g : Gauge ℤ)
      → has_bar objnam ≡ false
      → has_bar name ≡ false
      → value series (delete_split (split_key key) g)
        ≡ (if key == series_key then none else value series g)
  value-delete_split key g clean clean' =
      let found = split_key-metric_key objnam name subtype clean clean' in
      elim (Option-cases (split_key key)) [
        | inl nothing ↦
            let other : key ≢ series_key = λ same. cc (nothing, ap split_key same, found) in
            rw nothing (ground (arith, eq_iff key series_key))
        | inr (l, cut) ↦
            let (a, b, c, parts, whole, rest) = split_key-some key l cut in
            rw cut (elim (Bool-cases (key == series_key)) [
              | inl same ↦
                  let le : l ≡ series =
                    cc (cut, ap split_key ((eq_iff key series_key).0 same), found) in
                  ground (arith, value-delete series l g, eq_labels_refl series)
              | inr other ↦
                  let ne : l ≢ series = λ le. cc ((eq_iff key series_key).1 (whole ∙ cc)) in
                  ground (arith, value-delete series l g, eq_labels→eq l series)
            ])
      ]

  -- No key is cut into a series whose name has a bar.
  value-delete_split_bar :
      (key : String) (g : Gauge ℤ)
      → has_bar name ≡ true
      → value series (delete_split (split_key key) g) ≡ value series g
  value-delete_split_bar key g barred = elim (Option-cases (split_key key)) [
    | inl nothing ↦ rw nothing refl
    | inr (l, cut) ↦
        let (a, b, c, parts, whole, clean) = split_key-some key l cut in
        let ne : l ≢ series = λ le. ground (arith, le, parts) in
        rw cut (ground (arith, value-delete series l g, eq_labels→eq l series))
  ]

  -- The key was active before and is not now.
  abbrev pub stale : Map Bool → Map Bool → Bool
  stale [] current = false
  stale ((key, was) ∷ previous) current =
      ((key == series_key) && not (lookup_or false key current)) || stale previous current

  -- If neither its id nor its name has a bar, a series is deleted exactly if its key was active
  -- before this refresh and is not active after it; otherwise it keeps its value.
  pub value-cleanup_stale_metrics :
      (previous current : Map Bool) (g : Gauge ℤ)
      → has_bar objnam ≡ false
      → has_bar name ≡ false
      → value series (cleanup_stale_metrics previous current g)
        ≡ (if stale previous current then none else value series g)
  unfolding cleanup_stale_metrics
  value-cleanup_stale_metrics [] current g clean clean' = refl
  value-cleanup_stale_metrics ((key, was) ∷ previous) current g clean clean' =
      let g' = if lookup_or false key current then g else delete_split (split_key key) g in
      value-cleanup_stale_metrics previous current g' clean clean'
      ∙ ground (arith, value-delete_split key g clean clean')

  -- A series whose name has a bar is never deleted, whatever was active before and is now.
  pub value-cleanup_bar :
      (previous current : Map Bool) (g : Gauge ℤ)
      → has_bar name ≡ true
      → value series (cleanup_stale_metrics previous current g) ≡ value series g
  unfolding cleanup_stale_metrics
  value-cleanup_bar [] current g barred = refl
  value-cleanup_bar ((key, was) ∷ previous) current g barred =
      let g' = if lookup_or false key current then g else delete_split (split_key key) g in
      value-cleanup_bar previous current g' barred
      ∙ ground (arith, value-delete_split_bar key g barred)
