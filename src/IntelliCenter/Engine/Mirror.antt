-- ===== src/IntelliCenter/Engine/Mirror.antt =====
-- The invariant of the engine's state: the typed snapshot is the parse of the merged params, and
-- no subscriber's queue is longer than its channel.
use pentameter.Prelude.{
  List, [], ◌∷◌, ◌≤◌, ◌||◌, All, length, length-append, String, Bool, true, some, ◌≡◌, ◌≢◌, refl,
  sym, ap, ◌∙◌, ◌⊎◌, inl, inr, ◌==◌, arith, eq_iff, subst, Bool-cases,
}
use pentameter.Prelude.Map.{Map, lookup, insert, lookup-insert_self, lookup-insert_ne}
use pentameter.Prelude.Float.{Floats}
use pentameter.IntelliCenter.Types.{
  Kind, circuit, body, pump, heater, sensor, pmpcirc, eq_circuit, eq_body, eq_pump, eq_heater,
  eq_sensor, eq_circuit→eq, eq_heater→eq,
}
use pentameter.IntelliCenter.Parse.{circuit_from, body_from, pump_from, heater_from, sensor_from}
use pentameter.IntelliCenter.Engine.{
  Engine, Snapshot, Change, engine_sub_buffer, offer, offer_all, new_engine, reparse, merged,
  absorb, apply, emit,
}
use pentameter.IntelliCenter.Engine.Store.{
  lookup-diff_store_ne, lookup-diff_store_self, lookup-diff_store_exact,
}

-- The map has the value under the key, or one that Go's `==` takes for it. (The two may differ in a
-- float, for `-0 == 0`.)
abbrev pub Stored : {T : Type 0} → (T → T → Bool) → String → T → Map T → Type 0
Stored {T} same id v m = (w : T) × (lookup id m ≡ some w) × ((w ≡ v) ⊎ (same w v ≡ true))

module _ {F : Type 0} where
  offer-bounded :
      (c : Change F) (q : List (Change F))
      → length q ≤ engine_sub_buffer
      → length (offer c q) ≤ engine_sub_buffer
  unfolding offer
  offer-bounded c q h = ground (arith, length-append q (c ∷ []))

  offer_all-bounded :
      (c : Change F) (qs : List (List (Change F)))
      → All (λ q. length q ≤ engine_sub_buffer) qs
      → All (λ q. length q ≤ engine_sub_buffer) (offer_all c qs)
  unfolding offer_all
  offer_all-bounded c [] h = h
  offer_all-bounded c (q ∷ qs) h = (offer-bounded c q h.0, offer_all-bounded c qs h.1)

module _ {F : Type 0} ⦃fl : Floats F⦄ where
  -- The snapshot holds the parse of the params of an object of the kind.
  abbrev pub Holds : Kind → String → Map String → Snapshot F → Type 0
  Holds circuit id p s = lookup id s.circuits ≡ some (circuit_from id p)
  Holds body id p s = Stored eq_body id (body_from id p) s.bodies
  Holds pump id p s = Stored eq_pump id (pump_from id p) s.pumps
  Holds heater id p s = lookup id s.heaters ≡ some (heater_from id p)
  Holds sensor id p s = Stored eq_sensor id (sensor_from id p) s.sensors
  Holds pmpcirc id p s = Unit

  pub record IsValid (e : Engine F) : Type 0 where
    pub mirrored :
        (id : String) (k : Kind)
        → lookup id e.kind ≡ some k
        → (p : Map String) × (lookup id e.params ≡ some p) × Holds k id p e.snap
    pub bounded : All (λ (q : List (Change F)). length q ≤ engine_sub_buffer) e.subs

  -- Reparsing an object makes the snapshot hold its parse.
  reparse-Holds :
      (k : Kind) (id : String) (p : Map String) (s : Snapshot F) → Holds k id p (reparse k id p s).1
  unfolding reparse
  reparse-Holds circuit id p s =
      lookup-diff_store_exact eq_circuit id (circuit_from id p) s.circuits eq_circuit→eq
  reparse-Holds body id p s = lookup-diff_store_self eq_body id (body_from id p) s.bodies
  reparse-Holds pump id p s = lookup-diff_store_self eq_pump id (pump_from id p) s.pumps
  reparse-Holds heater id p s =
      lookup-diff_store_exact eq_heater id (heater_from id p) s.heaters eq_heater→eq
  reparse-Holds sensor id p s = lookup-diff_store_self eq_sensor id (sensor_from id p) s.sensors
  reparse-Holds pmpcirc id p s = tt

  -- Two snapshots agree on an object.
  record SameAt (j : String) (s t : Snapshot F) : Type 0 where
    circuits : lookup j s.circuits ≡ lookup j t.circuits
    bodies : lookup j s.bodies ≡ lookup j t.bodies
    pumps : lookup j s.pumps ≡ lookup j t.pumps
    heaters : lookup j s.heaters ≡ lookup j t.heaters
    sensors : lookup j s.sensors ≡ lookup j t.sensors

  reparse-SameAt :
      (k : Kind) (id j : String) (p : Map String) (s : Snapshot F)
      → id ≢ j
      → SameAt j (reparse k id p s).1 s
  unfolding reparse
  reparse-SameAt circuit id j p s ne = record {
    circuits = lookup-diff_store_ne eq_circuit id (circuit_from id p) s.circuits j ne;
    bodies = refl;
    pumps = refl;
    heaters = refl;
    sensors = refl;
  }
  reparse-SameAt body id j p s ne = record {
    bodies = lookup-diff_store_ne eq_body id (body_from id p) s.bodies j ne;
    circuits = refl;
    pumps = refl;
    heaters = refl;
    sensors = refl;
  }
  reparse-SameAt pump id j p s ne = record {
    pumps = lookup-diff_store_ne eq_pump id (pump_from id p) s.pumps j ne;
    circuits = refl;
    bodies = refl;
    heaters = refl;
    sensors = refl;
  }
  reparse-SameAt heater id j p s ne = record {
    heaters = lookup-diff_store_ne eq_heater id (heater_from id p) s.heaters j ne;
    circuits = refl;
    bodies = refl;
    pumps = refl;
    sensors = refl;
  }
  reparse-SameAt sensor id j p s ne = record {
    sensors = lookup-diff_store_ne eq_sensor id (sensor_from id p) s.sensors j ne;
    circuits = refl;
    bodies = refl;
    pumps = refl;
    heaters = refl;
  }
  reparse-SameAt pmpcirc id j p s ne = record {
    circuits = refl;
    bodies = refl;
    pumps = refl;
    heaters = refl;
    sensors = refl;
  }

  Holds-SameAt :
      (k : Kind) (j : String) (p : Map String) (s t : Snapshot F)
      → SameAt j s t
      → Holds k j p t
      → Holds k j p s
  Holds-SameAt circuit j p s t same h = same.circuits ∙ h
  Holds-SameAt body j p s t same h = (h.0, same.bodies ∙ h.1, h.2)
  Holds-SameAt pump j p s t same h = (h.0, same.pumps ∙ h.1, h.2)
  Holds-SameAt heater j p s t same h = same.heaters ∙ h
  Holds-SameAt sensor j p s t same h = (h.0, same.sensors ∙ h.1, h.2)
  Holds-SameAt pmpcirc j p s t same h = tt

  module _ (k : Kind) (id : String) (partial : Map String) (force : Bool) (e : Engine F) where
    -- An emission changes the queues alone.
    apply-absorb :
        ((apply k id partial force e).kind ≡ insert id k e.kind)
        × ((apply k id partial force e).params ≡ insert id (merged id partial e) e.params)
        × ((apply k id partial force e).snap ≡ (reparse k id (merged id partial e) e.snap).1)
    unfolding apply absorb emit
    apply-absorb = ground arith

    apply-bounded :
        All (λ (q : List (Change F)). length q ≤ engine_sub_buffer) e.subs
        → All
            (λ (q : List (Change F)). length q ≤ engine_sub_buffer)
            (apply k id partial force e).subs
    unfolding apply absorb emit
    apply-bounded h =
        let (change, snap', changed) = reparse k id (merged id partial e) e.snap in
        elim (Bool-cases (changed || force)) [
          | inl tell ↦ rw tell (offer_all-bounded change e.subs h)
          | inr quiet ↦ rw quiet h
        ]

    abbrev after : Engine F
    after = apply k id partial force e

    -- The object that is updated.
    mirrored_self :
        (k' : Kind)
        → lookup id after.kind ≡ some k'
        → (p : Map String) × (lookup id after.params ≡ some p) × Holds k' id p after.snap
    mirrored_self k' found =
        let cur = merged id partial e in
        let is_kind : k ≡ k' =
          cc (ap (lookup id) apply-absorb.0, lookup-insert_self id k e.kind, found) in
        (
          cur,
          ap (lookup id) apply-absorb.1 ∙ lookup-insert_self id cur e.params,
          rw (← is_kind) (rw (apply-absorb.2) (reparse-Holds k id cur e.snap)),
        )

    -- Any other object.
    mirrored_other :
        IsValid e
        → (j : String) (k' : Kind) → id ≢ j
        → lookup j after.kind ≡ some k'
        → (p : Map String) × (lookup j after.params ≡ some p) × Holds k' j p after.snap
    mirrored_other h j k' ne found =
        let cur = merged id partial e in
        let (p, stored, holds) =
          h.mirrored j k' (
            sym (lookup-insert_ne id j k e.kind ne) ∙ sym (ap (lookup j) apply-absorb.0) ∙ found) in
        (
          p,
          ap (lookup j) apply-absorb.1 ∙ lookup-insert_ne id j cur e.params ne ∙ stored,
          rw (apply-absorb.2)
              (Holds-SameAt k' j p _ e.snap (reparse-SameAt k id j cur e.snap ne) holds),
        )

    -- Applying an update keeps the invariant, whatever its kind, object and params.
    pub apply-IsValid : IsValid e → IsValid (apply k id partial force e)
    apply-IsValid h = record {
      bounded = apply-bounded h.bounded;
      mirrored = λ j k' found. elim (Bool-cases (id == j)) [
        | inl same ↦
            subst
              (λ (i : String).
                lookup i after.kind ≡ some k'
                → (p : Map String) × (lookup i after.params ≡ some p) × Holds k' i p after.snap)
              ((eq_iff id j).0 same) (mirrored_self k') found
        | inr other ↦ mirrored_other h j k' (λ same. cc ((eq_iff id j).1 same)) found
      ];
    }

  -- A new engine knows no object.
  pub new_engine-IsValid : IsValid (new_engine {F = F})
  unfolding lookup
  new_engine-IsValid = record { mirrored = λ id k found. cc; bounded = tt }
