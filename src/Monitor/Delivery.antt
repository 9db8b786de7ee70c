-- ===== src/Monitor/Delivery.antt =====
-- When a circuit or feature reads as on.
use mathlib.Core.List.{Memᴰ}
use pentameter.Prelude.{
  String, Bool, true, false, some, List, [], ◌∷◌, ◌≡◌, ◌≢◌, refl, sym, ap, List-cases, ◌⊎◌, inl,
  inr, ◌==◌, ◌&&◌, arith, eq_iff, any, Bool-cases, if◌then◌else◌,
}
use pentameter.Prelude.Int.{ℤ, pos}
use pentameter.Prelude.Map.{Map, lookup, lookup_or}
use pentameter.Monitor.State.{PoolMonitor}
use pentameter.Monitor.Pumps.{apply_pump_delivery_gate}
use pentameter.Monitor.Status.{commanded_status, get_regular_circuit_status}

any-Memᴰ :
    {A : Type 0} (p : A → Bool) (xs : List A) → any p xs ≡ true → (x : A) × Memᴰ x xs × (p x ≡ true)
any-Memᴰ p [] h = cc
any-Memᴰ p (x ∷ xs) h = elim (Bool-cases (p x)) [
  | inl here ↦ (x, Memᴰ.head refl, here)
  | inr there ↦ let (y, m, good) = any-Memᴰ p xs (rw there at h) in (y, Memᴰ.tail m, good)
]

Memᴰ-any :
    {A : Type 0} (p : A → Bool) {x : A} {xs : List A} → Memᴰ x xs → p x ≡ true → any p xs ≡ true
Memᴰ-any p (Memᴰ.head {x = y} {xs = xs} e) h = rw (ap p (sym e)) (rw h refl)
Memᴰ-any p (Memᴰ.tail m) h = ground (arith, Memᴰ-any p m h)

lookup_or_of_some :
    (k : String) (g : Map Bool) → lookup k g ≡ some true → lookup_or false k g ≡ true
unfolding lookup_or
lookup_or_of_some k g h = ground arith

some_of_lookup_or :
    (k : String) (g : Map Bool) → lookup_or false k g ≡ true → lookup k g ≡ some true
unfolding lookup_or
some_of_lookup_or k g h = ground arith

module _ {F : Type 0} (m : PoolMonitor F) where
  -- The circuit drives no pump, or one of the pumps that it drives runs.
  abbrev pub Delivers : String → Type 0
  Delivers obj_name =
      (lookup_or [] obj_name m.circuit_to_pumps ≡ [])
      ⊎ ((p : String) × Memᴰ p (lookup_or [] obj_name m.circuit_to_pumps)
          × (lookup p m.pump_running ≡ some true))

  gate-Delivers :
      (obj_name : String) (status : ℤ)
      → Delivers obj_name
      → apply_pump_delivery_gate m obj_name status ≡ status
  unfolding apply_pump_delivery_gate
  gate-Delivers obj_name status (inl none_driven) = rw (none_driven) (ground arith)
  gate-Delivers obj_name status (inr (p, driven, runs)) = ground (
    arith,
    Memᴰ-any (λ q. lookup_or false q m.pump_running) driven
        (lookup_or_of_some p m.pump_running runs),
  )

  gate-cases :
      (obj_name : String) (status : ℤ)
      → (apply_pump_delivery_gate m obj_name status ≡ pos 0)
        ⊎ (Delivers obj_name × (apply_pump_delivery_gate m obj_name status ≡ status))
  unfolding apply_pump_delivery_gate
  gate-cases obj_name status =
      let pumps = lookup_or [] obj_name m.circuit_to_pumps in
      elim (List-cases pumps) [
        | inl nothing ↦ inr (inl nothing, gate-Delivers obj_name status (inl nothing))
        | inr (first, others, some_driven) ↦
            elim (Bool-cases (any (λ p. lookup_or false p m.pump_running) pumps)) [
              | inl running ↦
                  let (p, driven, runs) =
                    any-Memᴰ (λ p. lookup_or false p m.pump_running) pumps running in
                  let delivers : Delivers obj_name =
                    inr (p, driven, some_of_lookup_or p m.pump_running runs) in
                  inr (delivers, gate-Delivers obj_name status delivers)
              | inr idle ↦ inl (ground arith)
            ]
      ]

  -- A regular circuit or feature that is commanded on, and that drives no pump or a pump that runs,
  -- reads as freeze-protected if freeze protection is active and enabled for it, and else as on; and
  -- only then does it read as anything but off.
  pub get_regular_circuit_status-Delivers :
      (status obj_name : String) (freeze_enabled : Bool)
      → let shown = get_regular_circuit_status m status obj_name freeze_enabled in
        let expected : ℤ = if m.freeze_protection_active && freeze_enabled then pos 2 else pos 1 in
        (status ≡ "ON" → Delivers obj_name → shown ≡ expected)
        × (shown ≢ pos 0 → (status ≡ "ON") × Delivers obj_name × (shown ≡ expected))
  unfolding get_regular_circuit_status
  get_regular_circuit_status-Delivers status obj_name freeze_enabled =
      let commanded = commanded_status m (status == "ON") freeze_enabled in
      (
        λ on delivers.
            ground (arith, gate-Delivers obj_name commanded delivers, eq_iff status "ON"),
        λ shown. elim (gate-cases obj_name commanded) [
          | inl off ↦ absurd (shown off)
          | inr (delivers, same) ↦
              (ground (arith, eq_iff status "ON"), delivers, ground (arith, eq_iff status "ON"))
        ],
      )
