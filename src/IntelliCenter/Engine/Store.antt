-- ===== src/IntelliCenter/Engine/Store.antt =====
-- `diffStore` and `reparseLocked` of engine.go: what they store, and when they report a change.
use pentameter.Prelude.{
  String, Bool, true, false, some, ◌≡◌, ◌≢◌, refl, ◌⊎◌, inl, inr, arith, eq_iff, if◌then◌else◌,
  Bool-cases, Option-cases,
}
use pentameter.Prelude.Map.{Map, lookup, insert, lookup-insert, lookup-insert_self}
use pentameter.IntelliCenter.Engine.{diff_store}

module _ {T : Type 0} (same : T → T → Bool) (id : String) (v : T) (m : Map T) where
  -- Either the value is stored and reported, or an equal one was there and nothing happens.
  pub diff_store-cases :
      (diff_store same id v m ≡ (insert id v m, true))
      ⊎ ((prev : T) × (lookup id m ≡ some prev)
          × (same prev v ≡ true)
          × (diff_store same id v m ≡ (m, false)))
  unfolding diff_store
  diff_store-cases = elim (Option-cases (lookup id m)) [
    | inl fresh ↦ inl (rw fresh)
    | inr (prev, old) ↦ elim (Bool-cases (same prev v)) [
      | inl same_value ↦ inr (prev, old, same_value, rw (old, same_value))
      | inr differs ↦ inl (rw (old, differs))
    ]
  ]

  -- The map is written exactly if the change is reported.
  pub diff_store-told :
      (diff_store same id v m).0 ≡ (if (diff_store same id v m).1 then insert id v m else m)
  diff_store-told = elim diff_store-cases [
    | inl stored ↦ rw stored
    | inr (prev, old, same_value, kept) ↦ rw kept
  ]

  -- Other keys keep their values.
  pub lookup-diff_store_ne :
      (j : String) → id ≢ j → lookup j (diff_store same id v m).0 ≡ lookup j m
  lookup-diff_store_ne j ne = elim diff_store-cases [
    | inl stored ↦ rw stored (ground (arith, lookup-insert id j v m, eq_iff id j))
    | inr (prev, old, same_value, kept) ↦ rw kept
  ]

  -- The key has the value, or an equal one that it had before.
  pub lookup-diff_store_self :
      (w : T) × (lookup id (diff_store same id v m).0 ≡ some w) × ((w ≡ v) ⊎ (same w v ≡ true))
  lookup-diff_store_self = elim diff_store-cases [
    | inl stored ↦ (v, rw stored (lookup-insert_self id v m), inl refl)
    | inr (prev, old, same_value, kept) ↦ (prev, rw kept old, inr same_value)
  ]

  -- Where `same` decides equality, the key has exactly the value.
  pub lookup-diff_store_exact :
      ((a b : T) → same a b ≡ true → a ≡ b) → lookup id (diff_store same id v m).0 ≡ some v
  lookup-diff_store_exact exact = elim diff_store-cases [
    | inl stored ↦ rw stored (lookup-insert_self id v m)
    | inr (prev, old, same_value, kept) ↦ rw (kept, old, exact prev v same_value)
  ]
