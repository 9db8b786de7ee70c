-- ===== src/Monitor/Watch/Notices.antt =====
-- The notices of listen mode that are logged once for a name: the temperatures that do not parse, in
-- `processBodyTemperature`, and `logSkippedFeature` of main.go.
use Prim.Native.String.{◌++◌ as concat}
use pentameter.Prelude.{String, Bool, true, false, Option, none, some, [], ◌∷◌, ◌++◌, if◌then◌else◌}
use pentameter.Prelude.Map.{insert, lookup_or}
use pentameter.Monitor.Watch.{Watch, EquipmentState, Line, parse_failed, feature_skipped}

module _ {F : Type 0} where
  -- A line that is logged once: whether it has been, and how that is remembered.
  abbrev pub once :
      (EquipmentState F → Bool)
      → (EquipmentState F → EquipmentState F)
      → Line F
      → Option (EquipmentState F)
      → Watch F
      → Watch F
  once seen mark l none w = w
  once seen mark l (some s) w =
      if seen s then w else record w { previous_state = some (mark s); lines = w.lines ++ l ∷ [] }

  unfoldable pub note_once :
      (EquipmentState F → Bool) → (EquipmentState F → EquipmentState F) → Line F → Watch F → Watch F
  note_once seen mark l w = if w.listen_mode then once seen mark l w.previous_state w else w

  -- The temperature that does not parse, in `processBodyTemperature`.
  unfoldable pub note_parse_error : String → Watch F → Watch F
  note_parse_error name =
      let key = concat "temp-parse-" name in
      note_once (λ s. lookup_or false key s.parse_errors)
        (λ s. record s { parse_errors = insert key true s.parse_errors }) (parse_failed name)

  -- `logSkippedFeature`
  unfoldable pub log_skipped_feature : String → String → Watch F → Watch F
  log_skipped_feature name id =
      note_once (λ s. lookup_or false id s.skipped_features)
        (λ s. record s { skipped_features = insert id true s.skipped_features })
        (feature_skipped name)
