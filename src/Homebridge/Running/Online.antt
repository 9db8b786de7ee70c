-- ===== src/Homebridge/Running/Online.antt =====
-- The sensor of the connection, over the whole of `Run`: what the shim knows of it, and how the last
-- scan went.
use pentameter.Prelude.{
  ℕ, Bool, true, false, Option, none, some, List, [], ◌∷◌, ◌++◌, ◌≡◌, refl, All, All-split,
}
use pentameter.Prelude.Float.{Floats}
use pentameter.IntelliCenter.Result.{Result}
use pentameter.IntelliCenter.Engine.{Engine}
use pentameter.IntelliCenter.Engine.Running.Natural.{Call, scanned, polled, pushed, changed}
use pentameter.IntelliCenter.Engine.Running.Log.{react_all, react_all-append}
use pentameter.Homebridge.Publish.{ConnWatch}
use pentameter.Homebridge.Running.{Sidecar, succeeded, shim_call}
use pentameter.Homebridge.Running.Conn.{known_after, IsOther}

module _ {F : Type 0} where
  -- How the last scan, or the last attempt to connect, went.
  unfoldable pub latest : Option Bool → List (Call F) → Option Bool
  latest o [] = o
  latest o (scanned result e ∷ calls) = latest (some (succeeded result)) calls
  latest o (polled baseline e ∷ calls) = latest o calls
  latest o (pushed msg e ∷ calls) = latest o calls
  latest o (changed i c e ∷ calls) = latest o calls

  latest-append :
      (calls more : List (Call F)) (o : Option Bool)
      → latest o (calls ++ more) ≡ latest (latest o calls) more
  unfolding latest
  latest-append [] more o = refl
  latest-append (scanned result e ∷ calls) more o = latest-append calls more _
  latest-append (polled baseline e ∷ calls) more o = latest-append calls more o
  latest-append (pushed msg e ∷ calls) more o = latest-append calls more o
  latest-append (changed i c e ∷ calls) more o = latest-append calls more o

  -- No change of the call is about a circuit that is named like the sensor.
  abbrev pub IsPlain : Call F → Type 0
  IsPlain (changed i c e) = IsOther c
  IsPlain call = Unit

abbrev Remembers : Option Bool → ConnWatch → Type 0
Remembers none w = w.first_scan ≡ true
Remembers (some b) w = (w.first_scan ≡ false) × (w.last_conn ≡ b)

-- The sidecar remembers the last scan, and has told the shim, if it has published.
abbrev IsKnown : {F : Type 0} → Option Bool → Sidecar F → Type 0
IsKnown o s = Remembers o s.conn × (s.publisher.published ≡ true → known_after s.sent none ≡ o)

module _ {F : Type 0} ⦃fl : Floats F⦄ (clock : ℕ → ℕ) where
  -- What a list of calls keeps up to date.
  abbrev Tells : List (Call F) → Type 0
  Tells calls =
      (o : Option Bool) (s : Sidecar F)
      → All IsPlain calls
      → IsKnown o s
      → IsKnown (latest o calls) (react_all (shim_call clock) calls s)

  Tells-append : (calls more : List (Call F)) → Tells calls → Tells more → Tells (calls ++ more)
  Tells-append calls more first second o s plain h =
      let (here, there) = All-split IsPlain calls more plain in
      rw (latest-append calls more o, react_all-append (shim_call clock) calls more s)
        (second (latest o calls) _ there (first o s here h))
