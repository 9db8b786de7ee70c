-- ===== src/IntelliCenter/Engine/Running/Late.antt =====
-- What the poll loop of a session does after it: pollLoop of engine.go over a closed client.
use pentameter.Prelude.{ℕ, List, ◌∷◌, ◌++◌, replicate}
use pentameter.Prelude.Float.{Floats}
use pentameter.IntelliCenter.Result.{Result, err, not_connected}
use pentameter.IntelliCenter.Client.{Client, close}
use pentameter.IntelliCenter.Engine.{Engine}
use pentameter.IntelliCenter.Engine.Running.{Counters, Running}
use pentameter.IntelliCenter.Engine.Running.Natural.{Call, scanned}
use pentameter.IntelliCenter.Engine.Running.Log.{note}

module _ {F : Type 0} ⦃fl : Floats F⦄ (c : Client) (since : ℕ)
    (rest : List (Client × Counters)) where
  -- A state with the poll loop of an earlier session, over its closed client.
  abbrev pub straying : ℕ → Running F (List (Call F)) → Running F (List (Call F))
  straying failures r = record r { strays = (close c, (since, failures)) ∷ rest }

  -- A state without that loop, in which OnScan has been told that many times.
  abbrev pub gone : ℕ → Running F (List (Call F)) → Running F (List (Call F))
  gone n r = record r {
    strays = rest;
    heard = r.heard ++ replicate n (scanned (err not_connected) r.engine);
  }

  told : Running F (List (Call F)) → Running F (List (Call F))
  told r = record r { heard = note (scanned (err not_connected) r.engine) r.heard }
