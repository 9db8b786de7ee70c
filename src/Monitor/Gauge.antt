-- ===== src/Monitor/Gauge.antt =====
-- A Prometheus gauge vector as the program uses it: a value for each tuple of label values.
use pentameter.Prelude.{
  String, Bool, true, false, Option, none, some, List, [], ◌∷◌, ◌==◌, ◌&&◌, ◌≡◌, refl, arith,
  eq_iff, if◌then◌else◌,
}

abbrev pub Labels : Type 0
Labels = List String

-- Equality of label values.
unfoldable pub eq_labels : Labels → Labels → Bool
eq_labels [] [] = true
eq_labels (a ∷ as') (b ∷ bs) = let rest = eq_labels as' bs in (a == b) && rest
eq_labels _ _ = false

abbrev pub Gauge : Type 0 → Type 0
Gauge V = List (Labels × V)

module _ {V : Type 0} where
  -- The exported value of a series.
  unfoldable pub value : Labels → Gauge V → Option V
  value l [] = none
  value l ((k, v) ∷ g) = let rest = value l g in if eq_labels k l then some v else rest

  -- `WithLabelValues(l...).Set(v)`
  unfoldable pub set : Labels → V → Gauge V → Gauge V
  set l v [] = (l, v) ∷ []
  set l v ((k, w) ∷ g) = let rest = set l v g in if eq_labels k l then (k, v) ∷ g else (k, w) ∷ rest

  -- `DeleteLabelValues(l...)`
  unfoldable pub delete : Labels → Gauge V → Gauge V
  delete l [] = []
  delete l ((k, v) ∷ g) = let rest = delete l g in if eq_labels k l then rest else (k, v) ∷ rest

pub eq_labels→eq : (a b : Labels) → eq_labels a b ≡ true → a ≡ b
unfolding eq_labels
eq_labels→eq [] [] h = refl
eq_labels→eq [] (b ∷ bs) h = cc
eq_labels→eq (a ∷ as') [] h = cc
eq_labels→eq (a ∷ as') (b ∷ bs) h = ground (arith, eq_iff a b, eq_labels→eq as' bs)

pub eq_labels_refl : (a : Labels) → eq_labels a a ≡ true
unfolding eq_labels
eq_labels_refl [] = refl
eq_labels_refl (a ∷ as') = ground (arith, eq_iff a a, eq_labels_refl as')

module _ {V : Type 0} where
  -- A read after a deletion.
  pub value-delete :
      (l k : Labels) (g : Gauge V)
      → value l (delete k g) ≡ (if eq_labels k l then none else value l g)
  unfolding value delete
  value-delete l k [] = ground arith
  value-delete l k ((j, v) ∷ g) = ground (
    arith,
    value-delete l k g,
    eq_labels→eq j k,
    eq_labels→eq j l,
    eq_labels→eq k l,
    eq_labels_refl j,
    eq_labels_refl k,
  )

  -- A read after a write.
  pub value-set :
      (l k : Labels) (v : V) (g : Gauge V)
      → value l (set k v g) ≡ (if eq_labels k l then some v else value l g)
  unfolding value set
  value-set l k v [] = ground arith
  value-set l k v ((j, w) ∷ g) = ground (
    arith,
    value-set l k v g,
    eq_labels→eq j k,
    eq_labels→eq j l,
    eq_labels→eq k l,
    eq_labels_refl j,
    eq_labels_refl k,
  )
