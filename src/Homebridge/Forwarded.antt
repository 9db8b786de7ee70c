-- ===== src/Homebridge/Forwarded.antt =====
-- What a shim hears of the engine: the changes of a subscriber of engine.go that `hbForwardChanges` of
-- homebridge.go sends on.
use Prim.Native.Char.{code}
use Prim.Native.String.{◌++◌ as concat}
use text.Mathlib.TextLemmas.{cons-append}
use pentameter.Prelude.{
  ℕ, ◌+◌, ◌≤◌, String, Bool, true, false, Option, none, some, List, [], ◌∷◌, ◌++◌, ◌==◌, ◌||◌, eqb,
  ◌≡◌, refl, sym, ap, ◌∙◌, arith, length, get_elem?, eq_iff, if◌then◌else◌, if_elim,
}
use pentameter.Prelude.Int.{pos}
use pentameter.Prelude.Map.{lookup, lookup-insert}
use pentameter.Prelude.Float.{Floats}
use pentameter.IntelliCenter.Types.{Circuit, Body}
use pentameter.IntelliCenter.Engine.{
  Engine, Snapshot, Change, circuit_change, body_change, pump_change, heater_change, sensor_change,
  nothing, engine_sub_buffer,
}
use pentameter.IntelliCenter.Engine.Replay.{
  Update, replay, replay_all, apply_updates, subscriber_rebuilds,
}
use pentameter.Homebridge.Items.{Accessory}
use pentameter.Homebridge.Publish.{
  Message, state, lstate, tstate, Publisher, thermostat_state_from_body, messages_of,
  forward_change,
}

abbrev pub or_else : {V : Type 0} → Option V → Option V → Option V
or_else none o = o
or_else (some v) o = some v

or_else_assoc : {V : Type 0} (a b c : Option V) → or_else (or_else a b) c ≡ or_else a (or_else b c)
or_else_assoc none b c = refl
or_else_assoc (some v) b c = refl

-- The id of a running sensor has a dot; that of a circuit has none.
unfoldable pub has_dot : String → Bool
has_dot String.[] = false
has_dot (String.◌∷◌ c s) = let rest = has_dot s in eqb (code c) b'.' || rest

has_dot-run : (k : String) → has_dot (concat k ".run") ≡ true
unfolding has_dot
has_dot-run String.[] = refl
has_dot-run (String.◌∷◌ c k) = rw cons-append (ground (arith, has_dot-run k))

abbrev pub switch_of : Option Circuit → Option Bool
switch_of none = none
switch_of (some c) = some c.on

pub run_ne : (k id : String) → has_dot id ≡ false → (concat k ".run" == id) ≡ false
run_ne k id plain = ground (arith, eq_iff (concat k ".run") id, has_dot-run k, plain)

module _ {F : Type 0} where
  abbrev said_by : String → Message F → Option Bool
  said_by id (state key on) = if key == id then some on else none
  said_by id m = none

  -- The last that the messages say of a switch.
  unfoldable pub said : String → List (Message F) → Option Bool
  said id [] = none
  said id (m ∷ ms) = or_else (said id ms) (said_by id m)

  abbrev shown_by : String → Message F → Option (Accessory F)
  shown_by id (tstate t) = if t.id == id then some t else none
  shown_by id m = none

  -- The last that the messages say of a thermostat.
  unfoldable pub shown : String → List (Message F) → Option (Accessory F)
  shown id [] = none
  shown id (m ∷ ms) = or_else (shown id ms) (shown_by id m)

  said-append :
      (id : String) (ms ns : List (Message F))
      → said id (ms ++ ns) ≡ or_else (said id ns) (said id ms)
  unfolding said
  said-append id [] ns = ground arith
  said-append id (m ∷ ms) ns =
      ap (λ o. or_else o (said_by id m)) (said-append id ms ns)
      ∙ or_else_assoc (said id ns) (said id ms) (said_by id m)

  shown-append :
      (id : String) (ms ns : List (Message F))
      → shown id (ms ++ ns) ≡ or_else (shown id ns) (shown id ms)
  unfolding shown
  shown-append id [] ns = ground arith
  shown-append id (m ∷ ms) ns =
      ap (λ o. or_else o (shown_by id m)) (shown-append id ms ns)
      ∙ or_else_assoc (shown id ns) (shown id ms) (shown_by id m)

module _ {F : Type 0} ⦃fl : Floats F⦄ where
  abbrev pub thermostat_of : Option (Body F) → Option (Accessory F)
  unfolding thermostat_state_from_body
  thermostat_of none = none
  thermostat_of (some b) = some (thermostat_state_from_body b)

  unfoldable pub forward_all : Publisher → List (Change F) → List (Message F)
  unfolding forward_change
  forward_all p [] = []
  forward_all p (c ∷ cs) = forward_change p c ++ forward_all p cs

  said-messages_of :
      (id : String)
      → has_dot id ≡ false
      → (c : Change F) (s : Snapshot F)
      → switch_of (lookup id (replay c s).circuits)
        ≡ or_else (said id (messages_of c)) (switch_of (lookup id s.circuits))
  unfolding said messages_of replay
  said-messages_of id plain (circuit_change v) s =
      ground (arith, lookup-insert v.id id v s.circuits)
  said-messages_of id plain (body_change v) s = refl
  said-messages_of id plain (pump_change v) s =
      if_elim
        (λ (ms : List (Message F)).
          switch_of (lookup id s.circuits)
          ≡ or_else
              (said id (
                lstate (concat v.id ".rpm") v.rpm
                ∷ lstate (concat v.id ".watts") v.watts
                ∷ (ms ++ state (concat v.id ".run") v.on ∷ [])))
              (switch_of (lookup id s.circuits)))
        (fl.lt (fl.of_int (pos 0)) v.max_flow) (rw (run_ne v.id id plain) refl)
        (rw (run_ne v.id id plain) refl)
  said-messages_of id plain (heater_change v) s = refl
  said-messages_of id plain (sensor_change v) s =
      if_elim
        (λ (ms : List (Message F)).
          switch_of (lookup id s.circuits)
          ≡ or_else (said id ms) (switch_of (lookup id s.circuits)))
        v.valid refl refl
  said-messages_of id plain nothing s = refl

  shown-messages_of :
      (id : String) (c : Change F) (s : Snapshot F)
      → thermostat_of (lookup id (replay c s).bodies)
        ≡ or_else (shown id (messages_of c)) (thermostat_of (lookup id s.bodies))
  unfolding shown messages_of replay thermostat_state_from_body
  shown-messages_of id (circuit_change v) s = refl
  shown-messages_of id (body_change v) s = ground (arith, lookup-insert v.id id v s.bodies)
  shown-messages_of id (pump_change v) s =
      if_elim
        (λ (ms : List (Message F)).
          thermostat_of (lookup id s.bodies)
          ≡ or_else
              (shown id (
                lstate (concat v.id ".rpm") v.rpm
                ∷ lstate (concat v.id ".watts") v.watts
                ∷ (ms ++ state (concat v.id ".run") v.on ∷ [])))
              (thermostat_of (lookup id s.bodies)))
        (fl.lt (fl.of_int (pos 0)) v.max_flow) refl refl
  shown-messages_of id (heater_change v) s = refl
  shown-messages_of id (sensor_change v) s =
      if_elim
        (λ (ms : List (Message F)).
          thermostat_of (lookup id s.bodies)
          ≡ or_else (shown id ms) (thermostat_of (lookup id s.bodies)))
        v.valid refl refl
  shown-messages_of id nothing s = refl

  module _ (p : Publisher) (published : p.published ≡ true) where
    forward_change-published : (c : Change F) → forward_change p c ≡ messages_of c
    unfolding forward_change
    forward_change-published c = ap (λ b. if b then messages_of c else []) published

    said-forward_all :
        (id : String)
        → has_dot id ≡ false
        → (cs : List (Change F)) (s : Snapshot F)
        → switch_of (lookup id (replay_all cs s).circuits)
          ≡ or_else (said id (forward_all p cs)) (switch_of (lookup id s.circuits))
    unfolding forward_all replay_all said
    said-forward_all id plain [] s = refl
    said-forward_all id plain (c ∷ cs) s =
        said-forward_all id plain cs (replay c s)
        ∙ (ap (or_else (said id (forward_all p cs))) (said-messages_of id plain c s)
            ∙ (sym (or_else_assoc (said id (forward_all p cs)) (said id (messages_of c)) _)
                ∙ ap (λ o. or_else o (switch_of (lookup id s.circuits)))
                    (sym (said-append id (messages_of c) (forward_all p cs))
                      ∙ ap (λ ms. said id (ms ++ forward_all p cs))
                          (sym (forward_change-published c)))))

    shown-forward_all :
        (id : String) (cs : List (Change F)) (s : Snapshot F)
        → thermostat_of (lookup id (replay_all cs s).bodies)
          ≡ or_else (shown id (forward_all p cs)) (thermostat_of (lookup id s.bodies))
    unfolding forward_all replay_all shown
    shown-forward_all id [] s = refl
    shown-forward_all id (c ∷ cs) s =
        shown-forward_all id cs (replay c s)
        ∙ (ap (or_else (shown id (forward_all p cs))) (shown-messages_of id c s)
            ∙ (sym (or_else_assoc (shown id (forward_all p cs)) (shown id (messages_of c)) _)
                ∙ ap (λ o. or_else o (thermostat_of (lookup id s.bodies)))
                    (sym (shown-append id (messages_of c) (forward_all p cs))
                      ∙ ap (λ ms. shown id (ms ++ forward_all p cs))
                          (sym (forward_change-published c)))))

    -- Once the accessories are announced, a subscriber with room for one change for each update sends
    -- messages that tell the shim where each switch and each thermostat stands: what the last message
    -- about it says, or, without one, what it was before, is what the engine then has. The id is that
    -- of a circuit or a body, without a dot.
    pub forward_all-tells :
        (us : List Update) (e : Engine F) (i : ℕ) (queue : List (Change F)) (id : String)
        → get_elem? e.subs i ≡ some queue
        → length queue + length us ≤ engine_sub_buffer
        → has_dot id ≡ false
        → (cs : List (Change F)) × (get_elem? (apply_updates us e).subs i ≡ some (queue ++ cs))
          × (switch_of (lookup id (apply_updates us e).snap.circuits)
              ≡ or_else (said id (forward_all p cs)) (switch_of (lookup id e.snap.circuits)))
          × (thermostat_of (lookup id (apply_updates us e).snap.bodies)
              ≡ or_else (shown id (forward_all p cs)) (thermostat_of (lookup id e.snap.bodies)))
    forward_all-tells us e i queue id at room plain =
        let (cs, queued, rebuilt) = subscriber_rebuilds us e i queue at room in
        (
          cs,
          queued,
          ap (λ s. switch_of (lookup id s.circuits)) rebuilt ∙ said-forward_all id plain cs e.snap,
          ap (λ s. thermostat_of (lookup id s.bodies)) rebuilt ∙ shown-forward_all id cs e.snap,
        )
