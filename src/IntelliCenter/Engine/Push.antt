-- ===== src/IntelliCenter/Engine/Push.antt =====
-- The push messages: `extractPushObjects` and `handlePush` of engine.go.
use pentameter.Prelude.{String, Option, none, some, List, [], ◌∷◌, ◌++◌, ◌==◌, if◌then◌else◌}
use pentameter.Prelude.Map.{Map, lookup}
use pentameter.Prelude.Float.{Floats}
use pentameter.IntelliCenter.Types.{Kind, ObjectData}
use pentameter.IntelliCenter.Json.{
  Items, Fields, text, object, nil, cons, end, field, member, as_text, as_array, as_object,
}
use pentameter.IntelliCenter.Engine.{Engine, apply_and_emit}

-- The params that are strings; the others are left out.
unfoldable pub text_fields : Fields → Map String
text_fields end = []
text_fields (field k (text s) fs) = (k, s) ∷ text_fields fs
text_fields (field k v fs) = text_fields fs

-- `toPushObject`
unfoldable pub to_push_object : Fields → Option ObjectData
unfolding member text_fields
to_push_object obj = elim (as_text (member "objnam" obj)) [
  | none ↦ none
  | some name ↦ if name == "" then none else elim (as_object (member "params" obj)) [
    | none ↦ none
    | some params ↦ some (record { obj_name = name; params = text_fields params })
  ]
]

abbrev pub singleton : Option ObjectData → List ObjectData
singleton none = []
singleton (some o) = o ∷ []

-- The entries of `changes` that are objects.
unfoldable pub changed_objects : Items → List ObjectData
unfolding to_push_object
changed_objects nil = []
changed_objects (cons (object obj) items) = singleton (to_push_object obj) ++ changed_objects items
changed_objects (cons v items) = changed_objects items

abbrev changes_of : Option Items → List ObjectData
unfolding changed_objects
changes_of none = []
changes_of (some items) = changed_objects items

-- `appendPushObjects`: the object itself, then its changes.
unfoldable pub append_push_objects : List ObjectData → Fields → List ObjectData
unfolding to_push_object changed_objects member
append_push_objects out obj =
    out ++ (singleton (to_push_object obj) ++ changes_of (as_array (member "changes" obj)))

-- The loop of `extractPushObjects`.
unfoldable pub push_objects_from : List ObjectData → Items → List ObjectData
unfolding append_push_objects
push_objects_from out nil = out
push_objects_from out (cons (object obj) items) =
    push_objects_from (append_push_objects out obj) items
push_objects_from out (cons v items) = push_objects_from out items

unfoldable pub extract_push_objects : Fields → List ObjectData
unfolding push_objects_from member
extract_push_objects msg = elim (as_array (member "objectList" msg)) [
  | none ↦ []
  | some items ↦ push_objects_from [] items
]

module _ {F : Type 0} ⦃fl : Floats F⦄ where
  unfoldable pub apply_known : Option Kind → ObjectData → Engine F → Engine F
  apply_known none o e = e
  apply_known (some k) o e = apply_and_emit k o.obj_name o.params e

  -- The loop of `handlePush`: objects of no known kind are skipped.
  unfoldable pub apply_pushed : List ObjectData → Engine F → Engine F
  unfolding apply_known
  apply_pushed [] e = e
  apply_pushed (o ∷ objs) e = apply_pushed objs (apply_known (lookup o.obj_name e.kind) o e)

  -- `Engine.handlePush`
  unfoldable pub handle_push : Fields → Engine F → Engine F
  unfolding extract_push_objects apply_pushed
  handle_push msg e = apply_pushed (extract_push_objects msg) e
