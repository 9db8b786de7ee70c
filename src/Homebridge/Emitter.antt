-- ===== src/Homebridge/Emitter.antt =====
-- The messages as JSON: `hbEmitter` and the tags of `hbAccessory` in homebridge.go. `show` is what
-- encoding/json makes of a number, or none where it refuses it; then `send` writes nothing. (It sorts
-- the keys of a map, which is not modelled.)
use pentameter.Prelude.{String, true, Option, none, some, List, [], ◌∷◌, ◌==◌, if◌then◌else◌}
use pentameter.IntelliCenter.Json.{
  Json, Items, Fields, null, bool, number, text, array, object, nil, cons, end, field,
}
use pentameter.Homebridge.Items.{Accessory}
use pentameter.Homebridge.Publish.{
  Message, accessories, ready, state, lstate, sstate, tstate, kind_text,
}

-- A value, and then what is made of it.
abbrev with_value : {A B : Type 0} → Option A → (A → Option B) → Option B
with_value none f = none
with_value (some a) f = f a

module _ {F : Type 0} (show : F → Option String) where
  -- A pointer that `omitempty` leaves out where it is nil.
  unfoldable pub optional : String → Option F → Fields → Option Fields
  optional key none rest = some rest
  optional key (some x) rest = with_value (show x) (λ n. some (field key (number n) rest))

  -- A pointer without it.
  abbrev pub nullable : Option F → Option Json
  nullable none = some null
  nullable (some x) = with_value (show x) (λ n. some (number n))

  -- `hbAccessory`
  unfoldable pub accessory_json : Accessory F → Option Json
  unfolding optional
  accessory_json it = with_value (optional "lux" it.lux end) (λ lux.
      let told = if it.state == "" then lux else field "state" (text it.state) lux in
      let cooling = if it.can_cool then field "canCool" (bool true) told else told in
      with_value (optional "coolC" it.cool_c cooling) (λ cool.
        with_value (optional "heatC" it.heat_c cool) (λ heat.
          with_value (optional "curC" it.cur_c heat) (λ thermal. some (
            object (
              field "id" (text it.id) (
                field "name" (text it.name)
                  (field "kind" (text (kind_text it.kind)) (field "on" (bool it.on) thermal)))))))))

  unfoldable pub items_json : List (Accessory F) → Option Items
  unfolding accessory_json
  items_json [] = some nil
  items_json (it ∷ items) =
      with_value (accessory_json it) (λ j. with_value (items_json items) (λ js. some (cons j js)))

  -- The methods of `hbEmitter`: the line that `send` writes, if it writes one.
  unfoldable pub message_fields : Message F → Option Fields
  unfolding items_json
  message_fields ready = some (field "t" (text "ready") end)
  message_fields (accessories items) =
      with_value (items_json items)
        (λ js. some (field "t" (text "accessories") (field "items" (array js) end)))
  message_fields (state id on) =
      some (field "t" (text "state") (field "id" (text id) (field "on" (bool on) end)))
  message_fields (lstate id lux) =
      with_value (show lux)
        (λ n. some (field "t" (text "lstate") (field "id" (text id) (field "lux" (number n) end))))
  message_fields (sstate id c) =
      with_value (show c)
        (λ n. some (field "t" (text "sstate") (field "id" (text id) (field "c" (number n) end))))
  message_fields (tstate t) = with_value (nullable t.cur_c) (λ cur.
      with_value (nullable t.heat_c) (λ heat. with_value (nullable t.cool_c) (λ cool. some (
        field "t" (text "tstate") (
          field "id" (text t.id) (
            field "curC" cur
              (field "heatC" heat (field "coolC" cool (field "state" (text t.state) end)))))))))

-- What goes out of a list of messages, one line each.
unfoldable pub send_all : {F : Type 0} → (F → Option String) → List (Message F) → List Fields
unfolding message_fields
send_all show [] = []
send_all show (m ∷ ms) =
    let rest = send_all show ms in
    elim (message_fields show m) [ none ↦ rest | some fs ↦ fs ∷ rest ]
