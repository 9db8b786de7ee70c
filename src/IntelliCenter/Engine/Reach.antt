-- ===== src/IntelliCenter/Engine/Reach.antt =====
-- The engine over its whole life: every order of polls, reloads of the static config, pushes,
-- refreshes after a write, subscriptions and receptions, over any behaviour of the sockets.
use pentameter.Prelude.{String, List, [], ◌∷◌, ◌≤◌, All, All-append, length, arith}
use pentameter.Prelude.Float.{Floats}
use pentameter.IntelliCenter.Json.{Fields}
use pentameter.IntelliCenter.Client.{Client}
use pentameter.IntelliCenter.Engine.{Engine, Change, new_engine, subscribe, engine_sub_buffer}
use pentameter.IntelliCenter.Engine.Mirror.{IsValid, new_engine-IsValid}
use pentameter.IntelliCenter.Engine.Scan.{scan, scan_pump_circuits, refresh_body}
use pentameter.IntelliCenter.Engine.Push.{handle_push}
use pentameter.IntelliCenter.Engine.Config.{load_config}
use pentameter.IntelliCenter.Engine.Updates.{
  scan-IsValid, scan_pump_circuits-IsValid, handle_push-IsValid, refresh_body-IsValid,
  load_config-IsValid,
}

module _ {F : Type 0} where
  -- A receive takes the first change of a queue.
  pub data Received : List (List (Change F)) → List (List (Change F)) → Type 0 where
    first :
        {c : Change F} {q : List (Change F)} {qs : List (List (Change F))}
        → Received ((c ∷ q) ∷ qs) (q ∷ qs)
    later :
        {q : List (Change F)} {qs rs : List (List (Change F))}
        → Received qs rs
        → Received (q ∷ qs) (q ∷ rs)

module _ {F : Type 0} ⦃fl : Floats F⦄ where
  -- One step. A client stands for whatever its socket answers at that time.
  pub data Step : Engine F → Engine F → Type 0 where
    scanned : {e : Engine F} (c : Client) → Step e (scan c e).2
    linked : {e : Engine F} (c : Client) → Step e (scan_pump_circuits c e).1
    configured : {e : Engine F} (c : Client) → Step e (load_config c e).1
    pushed : {e : Engine F} (msg : Fields) → Step e (handle_push msg e)
    refreshed : {e : Engine F} (id : String) (c : Client) → Step e (refresh_body id c e).2
    subscribed : {e : Engine F} → Step e (subscribe e)
    received :
        {e : Engine F} (queues : List (List (Change F)))
        → Received e.subs queues
        → Step e (record e { subs = queues })

  pub data Reach : Engine F → Type 0 where
    start : Reach new_engine
    next : {e e' : Engine F} → Reach e → Step e e' → Reach e'

  Received-bounded :
      {qs rs : List (List (Change F))}
      → Received qs rs
      → All (λ (q : List (Change F)). length q ≤ engine_sub_buffer) qs
      → All (λ (q : List (Change F)). length q ≤ engine_sub_buffer) rs
  Received-bounded first h = (omega (arith, h.0), h.1)
  Received-bounded (later r) h = (h.0, Received-bounded r h.1)

  subscribe-IsValid : (e : Engine F) → IsValid e → IsValid (subscribe e)
  unfolding subscribe
  subscribe-IsValid e h = record {
    mirrored = h.mirrored;
    bounded = All-append _ e.subs ([] ∷ []) h.bounded (omega arith, tt);
  }

  Step-IsValid : {e e' : Engine F} → Step e e' → IsValid e → IsValid e'
  Step-IsValid (scanned {e} c) h = scan-IsValid c e h
  Step-IsValid (linked {e} c) h = scan_pump_circuits-IsValid c e h
  Step-IsValid (configured {e} c) h = load_config-IsValid c e h
  Step-IsValid (pushed {e} msg) h = handle_push-IsValid msg e h
  Step-IsValid (refreshed {e} id c) h = refresh_body-IsValid id c e h
  Step-IsValid (subscribed {e}) h = subscribe-IsValid e h
  Step-IsValid (received {e} queues r) h = record {
    mirrored = h.mirrored;
    bounded = Received-bounded r h.bounded;
  }

  -- In every engine that is reached from a new one, by any steps in any order, the typed snapshot
  -- is the parse of the merged params of every known object, and no queue is longer than 64.
  pub Reach-IsValid : {e : Engine F} → Reach e → IsValid e
  Reach-IsValid start = new_engine-IsValid
  Reach-IsValid (next r s) = Step-IsValid s (Reach-IsValid r)
