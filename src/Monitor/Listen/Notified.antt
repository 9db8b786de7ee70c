-- ===== src/Monitor/Listen/Notified.antt =====
-- The objects that a push message lists: `processRawPushNotification` of main.go takes out what a
-- controller's NotifyList puts in.
use pentameter.Prelude.{String, List, [], ◌∷◌, ◌≡◌, refl, ap, ◌∙◌}
use pentameter.Prelude.Map.{Map}
use pentameter.Prelude.Float.{Floats}
use pentameter.IntelliCenter.Types.{ObjectData}
use pentameter.IntelliCenter.Json.{
  Json, Items, Fields, text, array, object, nil, cons, end, field, member,
}
use pentameter.Monitor.Watch.{push_message}
use pentameter.Monitor.State.{PoolMonitor}
use pentameter.Monitor.Listen.Pushes.{
  convert_params, convert_to_object_data, say, process_push_object, process_change_item,
  process_changes, process_object_list_item, process_object_list, process_raw_push_notification,
  on_raw_push,
}

unfoldable pub fields_of : Map String → Fields
fields_of [] = end
fields_of ((k, v) ∷ params) = field k (text v) (fields_of params)

unfoldable pub change_of : ObjectData → Json
change_of o =
    object (field "objnam" (text o.obj_name) (field "params" (object (fields_of o.params)) end))

unfoldable pub changes_of : List ObjectData → Items
changes_of [] = nil
changes_of (o ∷ objs) = cons (change_of o) (changes_of objs)

-- The message that tells of the objects.
unfoldable pub notify_list : List ObjectData → Fields
unfolding changes_of change_of fields_of
notify_list objs = field "command" (text "NotifyList") (
    field "objectList" (array (cons (object (field "changes" (array (changes_of objs)) end)) nil))
      end)

convert_params-fields_of :
    (format : Json → String) (params : Map String)
    → convert_params format (fields_of params) ≡ params
unfolding convert_params fields_of
convert_params-fields_of format [] = refl
convert_params-fields_of format ((k, v) ∷ params) =
    ap (λ r. (k, v) ∷ r) (convert_params-fields_of format params)

module _ {F : Type 0} ⦃fl : Floats F⦄ where
  unfoldable pub process_push_objects : List ObjectData → PoolMonitor F → PoolMonitor F
  process_push_objects [] m = m
  process_push_objects (o ∷ objs) m = process_push_objects objs (process_push_object o m)

  process_changes-changes_of :
      (format : Json → String) (objs : List ObjectData) (m : PoolMonitor F)
      → process_changes format (changes_of objs) m ≡ process_push_objects objs m
  unfolding process_changes changes_of process_change_item change_of member process_push_objects
      convert_to_object_data
  process_changes-changes_of format [] m = refl
  process_changes-changes_of format (o ∷ objs) m =
      ap
        (λ (params : Map String).
          process_changes format (changes_of objs)
            (process_push_object (record { obj_name = o.obj_name; params = params }) m))
        (convert_params-fields_of format o.params)
      ∙ process_changes-changes_of format objs (process_push_object o m)

  -- A NotifyList message about some objects, whose params are all texts, goes through the handlers
  -- object by object, in its order and with nothing lost, and is echoed behind that.
  pub on_raw_push-notify_list :
      (format : Json → String) (objs : List ObjectData) (m : PoolMonitor F)
      → on_raw_push format (notify_list objs) m
        ≡ say (push_message (notify_list objs)) (process_push_objects objs m)
  unfolding on_raw_push notify_list process_raw_push_notification process_object_list
      process_object_list_item member
  on_raw_push-notify_list format objs m =
      ap (say (push_message (notify_list objs))) (process_changes-changes_of format objs m)
