-- ===== src/IntelliCenter/Engine/Config.antt =====
-- `loadConfig` of engine.go: the SHOMNU flag of each feature.
use pentameter.Prelude.{String, Option, none, some, [], if◌then◌else◌}
use pentameter.Prelude.Map.{Map, insert}
use pentameter.Prelude.Text.{has_prefix}
use pentameter.IntelliCenter.Json.{
  Items, Fields, text, object, nil, cons, end, field, member, as_text, as_array, as_object,
}
use pentameter.IntelliCenter.Result.{Result, ok, err}
use pentameter.IntelliCenter.Client.{Client, do_raw}
use pentameter.IntelliCenter.Engine.{Engine}

-- The flag of one entry of the answer, if it is a feature with one.
unfoldable pub feature_flag : Fields → Option (String × String)
unfolding member
feature_flag obj = elim (as_text (member "objnam" obj)) [
  | none ↦ none
  | some name ↦
      if has_prefix name "FTR"
      then elim (as_object (member "params" obj)) [
        | none ↦ none
        | some params ↦ elim (as_text (member "SHOMNU" params)) [
          | none ↦ none
          | some shomnu ↦ some (name, shomnu)
        ]
      ]
      else none
]

abbrev add_flag : Option (String × String) → Map String → Map String
add_flag none cfg = cfg
add_flag (some (name, shomnu)) cfg = insert name shomnu cfg

unfoldable pub flags_from : Items → Map String → Map String
unfolding feature_flag
flags_from nil cfg = cfg
flags_from (cons (object obj) items) cfg = flags_from items (add_flag (feature_flag obj) cfg)
flags_from (cons v items) cfg = flags_from items cfg

abbrev pub configuration_request : Fields
configuration_request =
    field "command" (text "GetQuery")
      (field "queryName" (text "GetConfiguration") (field "arguments" (text "") end))

module _ {F : Type 0} where
  unfoldable pub with_answer : Option Items → Engine F → Engine F
  unfolding flags_from
  with_answer none e = e
  with_answer (some items) e = record e { config = flags_from items [] }

  unfoldable pub configured : Result Fields × Client → Engine F → Client × Engine F
  unfolding with_answer member
  configured (ok resp, c) e = (c, with_answer (as_array (member "answer" resp)) e)
  configured (err failure, c) e = (c, e)

  -- `Engine.loadConfig`: a failure leaves the config as it was.
  unfoldable pub load_config : Client → Engine F → Client × Engine F
  unfolding configured
  load_config c e = configured (do_raw configuration_request c) e
