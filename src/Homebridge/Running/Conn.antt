-- ===== src/Homebridge/Running/Conn.antt =====
-- What the shim knows of the connection: the sensor `_conn`.
use Prim.Native.String.{◌++◌ as concat}
use pentameter.Prelude.{
  Bool, true, false, Option, some, List, [], ◌∷◌, ◌++◌, ◌==◌, ◌≡◌, refl, arith, if_elim,
  if◌then◌else◌,
}
use pentameter.Prelude.Int.{pos}
use pentameter.Prelude.Map.{keys}
use pentameter.Prelude.Float.{Floats}
use pentameter.IntelliCenter.Engine.{
  Snapshot, Change, circuit_change, body_change, pump_change, heater_change, sensor_change, nothing,
}
use pentameter.Homebridge.Items.{
  Accessory, all_items, by_id, sort, circuit_items_of, thermostat_items_at, real_heaters_by_body,
  pump_sensor_items_of, pump_running_items_of, sensor_items_of, freeze_items_of,
}
use pentameter.Homebridge.Publish.{
  Message, accessories, state, lstate, Publisher, messages_of, forward_change,
}
use pentameter.Homebridge.Forwarded.{run_ne, has_dot}

module _ {F : Type 0} where
  -- The last accessory of that id, and whether it is on.
  unfoldable pub listed : List (Accessory F) → Option Bool → Option Bool
  listed [] known = known
  listed (it ∷ items) known = listed items (if it.id == "_conn" then some it.on else known)

  -- What the shim knows of `_conn` after a message, and after all of them.
  abbrev pub learn : Message F → Option Bool → Option Bool
  unfolding listed
  learn (accessories items) known = listed items known
  learn (state id on) known = if id == "_conn" then some on else known
  learn m known = known

  unfoldable pub known_after : List (Message F) → Option Bool → Option Bool
  unfolding learn
  known_after [] known = known
  known_after (m ∷ ms) known = known_after ms (learn m known)

  pub known_after-append :
      (ms ns : List (Message F)) (known : Option Bool)
      → known_after (ms ++ ns) known ≡ known_after ns (known_after ms known)
  unfolding known_after
  known_after-append [] ns known = refl
  known_after-append (m ∷ ms) ns known = known_after-append ms ns (learn m known)

  -- The list says that the controller is online, whatever was known.
  abbrev SaysOnline : List (Accessory F) → Type 0
  SaysOnline items = (known : Option Bool) → listed items known ≡ some true

  append-SaysOnline : (xs ys : List (Accessory F)) → SaysOnline ys → SaysOnline (xs ++ ys)
  unfolding listed
  append-SaysOnline [] ys h known = h known
  append-SaysOnline (x ∷ xs) ys h known = append-SaysOnline xs ys h _

  -- A change that is not about a circuit of that id.
  abbrev pub IsOther : Change F → Type 0
  IsOther (circuit_change c) = (c.id == "_conn") ≡ false
  IsOther c = Unit

module _ {F : Type 0} ⦃fl : Floats F⦄ where
  pub all_items-SaysOnline : (s : Snapshot F) → SaysOnline (all_items s)
  unfolding all_items listed
  all_items-SaysOnline s = append-SaysOnline (circuit_items_of (by_id s.circuits)) _ (
      append-SaysOnline
        (thermostat_items_at (sort (keys s.bodies)) s.bodies (real_heaters_by_body s.heaters)) _
        (append-SaysOnline (pump_sensor_items_of (by_id s.pumps)) _ (
          append-SaysOnline (pump_running_items_of (by_id s.pumps)) _ (
            append-SaysOnline (sensor_items_of (by_id s.sensors)) _
              (append-SaysOnline (freeze_items_of (by_id s.circuits)) _ (λ known. refl))))))

  messages_of-quiet :
      (c : Change F) → IsOther c → (known : Option Bool) → known_after (messages_of c) known ≡ known
  unfolding messages_of known_after has_dot
  messages_of-quiet (circuit_change c) h known = ground (arith, h)
  messages_of-quiet (body_change b) h known = refl
  messages_of-quiet (pump_change v) h known =
      if_elim
        (λ (ms : List (Message F)).
          known_after
            (lstate (concat v.id ".rpm") v.rpm
              ∷ lstate (concat v.id ".watts") v.watts
              ∷ (ms ++ state (concat v.id ".run") v.on ∷ []))
            known
          ≡ known)
        (fl.lt (fl.of_int (pos 0)) v.max_flow) (rw (run_ne v.id "_conn" refl) refl)
        (rw (run_ne v.id "_conn" refl) refl)
  messages_of-quiet (heater_change h) o known = refl
  messages_of-quiet (sensor_change v) h known =
      if_elim (λ (ms : List (Message F)). known_after ms known ≡ known) v.valid refl refl
  messages_of-quiet nothing h known = refl

  pub forward_change-quiet :
      (c : Change F)
      → IsOther c
      → (p : Publisher) (known : Option Bool) → known_after (forward_change p c) known ≡ known
  unfolding forward_change known_after
  forward_change-quiet c h p known =
      if_elim (λ (ms : List (Message F)). known_after ms known ≡ known) p.published
        (messages_of-quiet c h known) refl
