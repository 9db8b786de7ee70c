-- ===== src/IntelliCenter/Engine.antt =====
-- intellicenter/engine.go: the engine mirrors the controller's equipment and tells its subscribers
-- of each change. State: the merged params and the kind of every object, the typed snapshot, the
-- feature config, the subscribers' queues. The proofs are in the modules below.
pub mod Store
pub mod Mirror
pub mod Replay
pub mod Scan
pub mod Push
pub mod Config
pub mod Updates
pub mod Session
pub mod Rounds
pub mod Running
pub mod Poll
pub mod Reach
pub mod Backoff
pub mod Told
pub mod Live
use pentameter.Prelude.{
  ℕ, String, Bool, true, false, Option, none, some, List, [], ◌∷◌, ◌++◌, ◌==◌, ltb, length,
  if◌then◌else◌, ◌||◌,
}
use pentameter.Prelude.Map.{Map, lookup, insert, lookup_or, merge}
use pentameter.Prelude.Float.{Floats}
use pentameter.IntelliCenter.Types.{
  Kind, circuit, body, pump, heater, sensor, pmpcirc, Circuit, Body, Pump, Heater, Sensor,
  eq_circuit, eq_body, eq_pump, eq_heater, eq_sensor,
}
use pentameter.IntelliCenter.Parse.{circuit_from, body_from, pump_from, heater_from, sensor_from}

-- The typed view of all known equipment, by object name.
pub record Snapshot (F : Type 0) : Type 0 where
  pub circuits : Map Circuit
  pub bodies : Map (Body F)
  pub pumps : Map (Pump F)
  pub heaters : Map Heater
  pub sensors : Map (Sensor F)

-- One equipment delta. `nothing` is the source's `Change{}`, with every pointer nil.
pub data Change (F : Type 0) : Type 0 where
  circuit_change : Circuit → Change F
  body_change : Body F → Change F
  pump_change : Pump F → Change F
  heater_change : Heater → Change F
  sensor_change : Sensor F → Change F
  nothing : Change F

pub record Engine (F : Type 0) : Type 0 where
  pub kind : Map Kind
  pub params : Map (Map String)
  pub snap : Snapshot F
  pub config : Map String
  -- the changes that wait in each subscriber's channel, the oldest first
  pub subs : List (List (Change F))

abbrev pub empty_snapshot : {F : Type 0} → Snapshot F
empty_snapshot = record { circuits = []; bodies = []; pumps = []; heaters = []; sensors = [] }

-- `NewEngine`, for the state of this record.
abbrev pub new_engine : {F : Type 0} → Engine F
new_engine = record { kind = []; params = []; snap = empty_snapshot; config = []; subs = [] }

abbrev pub engine_sub_buffer : ℕ
engine_sub_buffer = 64

module _ {F : Type 0} where
  -- `Engine.Subscribe`: one more channel, which is empty.
  unfoldable pub subscribe : Engine F → Engine F
  subscribe e = record e { subs = e.subs ++ [] ∷ [] }

  -- A send that drops the change where the channel is full.
  unfoldable pub offer : Change F → List (Change F) → List (Change F)
  offer c queue = if ltb (length queue) engine_sub_buffer then queue ++ c ∷ [] else queue

  unfoldable pub offer_all : Change F → List (List (Change F)) → List (List (Change F))
  unfolding offer
  offer_all c [] = []
  offer_all c (q ∷ qs) = offer c q ∷ offer_all c qs

  -- `Engine.emit`
  unfoldable pub emit : Change F → Engine F → Engine F
  emit c e = record e { subs = offer_all c e.subs }

-- `diffStore`: store `v` unless the stored value equals it, and say whether it was stored.
module _ {T : Type 0} (same : T → T → Bool) where
  keep_or_store : Option T → String → T → Map T → Map T × Bool
  keep_or_store none id v m = (insert id v m, true)
  keep_or_store (some prev) id v m = if same prev v then (m, false) else (insert id v m, true)

  unfoldable pub diff_store : String → T → Map T → Map T × Bool
  unfolding keep_or_store
  diff_store id v m = keep_or_store (lookup id m) id v m

module _ {F : Type 0} ⦃fl : Floats F⦄ where
  -- `reparseLocked`: the typed value, rebuilt from the merged params and stored.
  unfoldable pub reparse : Kind → String → Map String → Snapshot F → Change F × Snapshot F × Bool
  reparse circuit id params s =
      let v = circuit_from id params in
      let (m, changed) = diff_store eq_circuit id v s.circuits in
      (circuit_change v, record s { circuits = m }, changed)
  reparse body id params s =
      let v = body_from id params in
      let (m, changed) = diff_store eq_body id v s.bodies in
      (body_change v, record s { bodies = m }, changed)
  reparse pump id params s =
      let v = pump_from id params in
      let (m, changed) = diff_store eq_pump id v s.pumps in
      (pump_change v, record s { pumps = m }, changed)
  reparse heater id params s =
      let v = heater_from id params in
      let (m, changed) = diff_store eq_heater id v s.heaters in
      (heater_change v, record s { heaters = m }, changed)
  reparse sensor id params s =
      let v = sensor_from id params in
      let (m, changed) = diff_store eq_sensor id v s.sensors in
      (sensor_change v, record s { sensors = m }, changed)
  reparse pmpcirc id params s = (nothing, s, false)

  -- The params of an object with the partial ones written over them.
  unfoldable pub merged : String → Map String → Engine F → Map String
  merged id partial e = merge partial (lookup_or [] id e.params)

  -- The state change of `apply`, with the change and whether it is emitted.
  unfoldable pub absorb : Kind → String → Map String → Bool → Engine F → Engine F × Change F × Bool
  unfolding merged
  absorb k id partial force e =
      let cur = merged id partial e in
      let (change, snap', changed) = reparse k id cur e.snap in
      (
        record e { params = insert id cur e.params; kind = insert id k e.kind; snap = snap' },
        change,
        changed || force,
      )

  -- `Engine.apply`
  unfoldable pub apply : Kind → String → Map String → Bool → Engine F → Engine F
  apply k id partial force e =
      let (e', change, tell) = absorb k id partial force e in if tell then emit change e' else e'

  -- `Engine.applyAndEmit`
  unfoldable pub apply_and_emit : Kind → String → Map String → Engine F → Engine F
  apply_and_emit k id partial e = apply k id partial false e
