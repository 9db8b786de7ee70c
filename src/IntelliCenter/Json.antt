-- ===== src/IntelliCenter/Json.antt =====
-- The values that encoding/json decodes into `any`: `map[string]any`, `[]any` and the scalars.
-- A number is kept as its text, for the program reads none.
use pentameter.Prelude.{String, Bool, Option, none, some, ◌==◌, if◌then◌else◌}

mutual
  pub data Json : Type 0 where
    null : Json
    bool : Bool → Json
    number : String → Json
    text : String → Json
    array : Items → Json
    object : Fields → Json

  pub data Items : Type 0 where
    nil : Items
    cons : Json → Items → Items

  pub data Fields : Type 0 where
    end : Fields
    field : String → Json → Fields → Fields

-- `m[key]`; a missing key gives nil, which no type assertion accepts.
unfoldable pub member : String → Fields → Json
member key end = null
member key (field k v fs) = let rest = member key fs in if k == key then v else rest

-- The type assertions `v.(string)`, `v.([]any)` and `v.(map[string]any)`.
abbrev pub as_text : Json → Option String
as_text (text s) = some s
as_text _ = none

abbrev pub as_array : Json → Option Items
as_array (array xs) = some xs
as_array _ = none

abbrev pub as_object : Json → Option Fields
as_object (object fs) = some fs
as_object _ = none
