-- ===== src/Examples/Controller.antt =====
-- A client that talks to a controller, and an engine over it.
use pentameter.Prelude.{
  ℕ, none, some, List, [], ◌∷◌, ◌++◌, ◌≡◌, refl, ap, arith, inr, get_elem?, replicate,
}
use pentameter.Prelude.Text.{ne_of_test}
use pentameter.Examples.Numbers.{tenths}
use pentameter.IntelliCenter.Types.{Response, Request, circuit}
use pentameter.IntelliCenter.Result.{ok, err, connect_failed}
use pentameter.IntelliCenter.Json.{Fields, end, field, text, array, object, cons, nil}
use pentameter.IntelliCenter.Client.{
  frame, written, sent_request, Conn, Client, next_message_id, request, round_trip,
}
use pentameter.IntelliCenter.Client.Match.{IsAnswer, round_trip-finds, round_trip_sound}
use pentameter.IntelliCenter.Client.Retry.{
  dial_fails, dial_connects, default_retry, backoff_delay, connect_with_retry,
  connect_with_retry-connects, connect_with_retry-fails,
}
use pentameter.IntelliCenter.Engine.{Engine, Change, new_engine, subscribe}
use pentameter.IntelliCenter.Engine.Mirror.{IsValid}
use pentameter.IntelliCenter.Engine.Rounds.{seconds}
use pentameter.IntelliCenter.Engine.Push.{handle_push}
use pentameter.IntelliCenter.Engine.Scan.{scan}
use pentameter.IntelliCenter.Engine.Reach.{start, next, scanned, pushed, subscribed, Reach-IsValid}
use pentameter.IntelliCenter.Engine.Replay.{Update, replay_all, apply_updates, subscriber_rebuilds}

-- A push that nobody asked for, the answer to the first request, and a later push.
abbrev notice : Response
notice = record { command = "NotifyList"; message_id = "push-1"; response = ""; object_list = [] }

abbrev answer : Response
answer = record {
  command = "SendParamList";
  message_id = "circuit-7-42";
  response = "200";
  object_list =
      record {
        obj_name = "C0001";
        params = ("SNAME", "Pool Light") ∷ ("SUBTYP", "INTELLI") ∷ ("STATUS", "OFF") ∷ [];
      }
      ∷ [];
}

abbrev socket : Conn
socket = record {
  writes = written ∷ written ∷ [];
  frames = frame (some notice) none ∷ frame (some answer) none ∷ frame (some notice) none ∷ [];
  sent = [];
}

abbrev client : Client
client = record { conn = some socket; seq = 0; clock = λ n. (7, 42) }

abbrev asked : Request
asked = request "GetParamList" "OBJTYP=CIRCUIT" []

-- The answer is the second frame; the third is left.
round_trip-finds_example : round_trip "circuit" asked client ≡ (
  ok answer,
  record (next_message_id "circuit" client).1 {
    conn = some (record {
      writes = written ∷ [];
      frames = frame (some notice) none ∷ [];
      sent = sent_request (record asked { message_id = (next_message_id "circuit" client).0 }) ∷ [];
    });
  },
)
unfolding next_message_id
round_trip-finds_example =
    round_trip-finds "circuit" asked client socket (written ∷ []) (frame (some notice) none ∷ [])
      (frame (some notice) none ∷ []) answer none refl refl refl
      ((notice, refl, ne_of_test "push-1" "circuit-7-42" refl), tt) (omega arith) (refl, inr refl)

round_trip_sound_example : IsAnswer (next_message_id "circuit" client).0 answer
round_trip_sound_example =
    round_trip_sound "circuit" asked client (ap (λ p. p.0) round_trip-finds_example)

connect_with_retry-connects_example :
    connect_with_retry default_retry (replicate 3 dial_fails ++ dial_connects ∷ [])
    ≡ (seconds 1 ∷ seconds 2 ∷ seconds 4 ∷ [], ok tt)
unfolding backoff_delay
connect_with_retry-connects_example = connect_with_retry-connects default_retry 3 [] (omega arith)

connect_with_retry-fails_example :
    connect_with_retry default_retry (replicate 6 dial_fails)
    ≡ (seconds 1 ∷ seconds 2 ∷ seconds 4 ∷ seconds 8 ∷ seconds 16 ∷ [], err connect_failed)
unfolding backoff_delay
connect_with_retry-fails_example = connect_with_retry-fails default_retry

-- The light is pushed on.
abbrev light_on : Fields
light_on =
    field "objectList"
      (array (
        cons
          (object (
            field "objnam" (text "C0001")
              (field "params" (object (field "STATUS" (text "ON") end)) end)))
          nil))
      end

abbrev polled : Engine ℕ
polled = (scan client new_engine).2

Reach-IsValid_example : IsValid (handle_push light_on (subscribe polled))
Reach-IsValid_example =
    Reach-IsValid (next (next (next start (scanned client)) subscribed) (pushed light_on))

abbrev watched : Engine ℕ
watched = record new_engine { subs = [] ∷ [] }

-- A light that appears, is turned on, and is reported once more without news.
abbrev updates : List Update
updates =
    (circuit, "C0001", ("SNAME", "Pool Light") ∷ ("STATUS", "OFF") ∷ [])
    ∷ (circuit, "C0001", ("STATUS", "ON") ∷ [])
    ∷ (circuit, "C0001", ("STATUS", "ON") ∷ [])
    ∷ []

subscriber_rebuilds_example :
    (cs : List (Change ℕ)) × (get_elem? (apply_updates updates watched).subs 0 ≡ some ([] ++ cs))
    × ((apply_updates updates watched).snap ≡ replay_all cs watched.snap)
subscriber_rebuilds_example = subscriber_rebuilds updates watched 0 [] refl (omega arith)
