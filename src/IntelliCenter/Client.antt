-- ===== src/IntelliCenter/Client.antt =====
-- intellicenter/client.go: a connection to the controller and the round trip of a request over it.
-- The mutex serialises round trips, so one is one step here.
-- The socket is what it will answer: the outcomes of the coming writes, and the coming frames.
pub mod Match
pub mod Retry
use pentameter.Prelude.{
  ℕ, zero, suc, ◌+◌, ◌%◌, String, Bool, true, false, Option, none, some, List, [], ◌∷◌, ◌==◌,
  if◌then◌else◌,
}
use Prim.Native.String.{◌++◌ as concat}
use pentameter.Prelude.Int.{pos}
use pentameter.Prelude.Text.{itoa}
use pentameter.IntelliCenter.Types.{Request, Response, Object, ObjectData}
use pentameter.IntelliCenter.Json.{Json, Fields, end, field, text, member, as_text}
use pentameter.IntelliCenter.Result.{
  Result, ok, err, not_connected, write_failed, deadline_failed, read_failed, no_match, rejected,
}

-- What `ReadJSON` makes of the next frame, into a `Response` and into a generic map. A frame that
-- encoding/json refuses for one of the two has `none` there; `broken` is an error of the socket.
pub data Frame : Type 0 where
  broken : Frame
  frame : Option Response → Option Fields → Frame

abbrev pub typed : Frame → Option Response
typed broken = none
typed (frame t r) = t

abbrev pub raw : Frame → Option Fields
raw broken = none
raw (frame t r) = r

-- How the next write goes: `WriteJSON` fails, `SetReadDeadline` fails after it, or neither does.
pub data Write : Type 0 where
  written write_fails deadline_fails : Write

pub data Sent : Type 0 where
  sent_request : Request → Sent
  sent_raw : Fields → Sent

pub record Conn : Type 0 where
  pub writes : List Write
  pub frames : List Frame
  -- what was written, the latest first
  pub sent : List Sent

pub record Client : Type 0 where
  pub conn : Option Conn
  pub seq : ℕ
  -- the seconds and nanoseconds that `time.Now` reads for the n-th message id
  pub clock : ℕ → ℕ × ℕ

abbrev pub max_unsolicited_messages : ℕ
max_unsolicited_messages = 10

unfoldable pub next_message_id : String → Client → String × Client
unfolding itoa
next_message_id prefix c =
    let n = c.seq + 1 in
    let (seconds, nanos) = c.clock n in
    (
      concat prefix
          (concat "-" (concat (itoa (pos seconds)) (concat "-" (itoa (pos (nanos % 1000000)))))),
      record c { seq = n },
    )

-- A response is good if its code is empty or 200.
unfoldable pub validate : Response → Result Response
validate resp =
    if resp.response == ""
    then ok resp
    else if resp.response == "200"
    then ok resp
    else err (rejected resp.response)

-- The loop of `roundTrip`: at most `rounds` frames are read, and those of another id are skipped.
unfoldable pub await : ℕ → String → List Frame → Result Response × List Frame
unfolding validate
await zero id frames = (err no_match, frames)
await (suc rounds) id [] = (err read_failed, [])
await (suc rounds) id (f ∷ frames) =
    let rest = await rounds id frames in
    elim (typed f) [
      | none ↦ (err read_failed, frames)
      | some resp ↦ if resp.message_id == id then (validate resp, frames) else rest
    ]

-- The same loop of `DoRaw`, which checks no response code.
unfoldable pub await_raw : ℕ → String → List Frame → Result Fields × List Frame
await_raw zero id frames = (err no_match, frames)
await_raw (suc rounds) id [] = (err read_failed, [])
await_raw (suc rounds) id (f ∷ frames) =
    let rest = await_raw rounds id frames in
    elim (raw f) [
      | none ↦ (err read_failed, frames)
      | some resp ↦ elim (as_text (member "messageID" resp)) [
        | none ↦ rest
        | some mid ↦ if mid == id then (ok resp, frames) else rest
      ]
    ]

module _ {A : Type 0} (m : Sent) (receive : List Frame → Result A × List Frame) where
  after_write : Write → Conn → Result A × Conn
  after_write write_fails k = (err write_failed, k)
  after_write deadline_fails k = (err deadline_failed, record k { sent = m ∷ k.sent })
  after_write written k =
      let (result, frames) = receive k.frames in
      (result, record k { frames = frames; sent = m ∷ k.sent })

  -- One write and the reads after it. A socket with no outcome left has failed.
  unfoldable pub exchange : Conn → Result A × Conn
  unfolding after_write
  exchange k = elim k.writes [
    | [] ↦ (err write_failed, k)
    | w ∷ ws ↦ after_write w (record k { writes = ws })
  ]

-- The exchange over the connection, under a fresh id.
module _ {A : Type 0} (m : Sent) (receive : List Frame → Result A × List Frame) where
  unfoldable pub converse : Client → Conn → Result A × Client
  unfolding exchange
  converse c k = let (result, k') = exchange m receive k in (result, record c { conn = some k' })

-- `Client.roundTrip`
unfoldable pub round_trip : String → Request → Client → Result Response × Client
unfolding converse
round_trip prefix req c = elim c.conn [
  | none ↦ (err not_connected, c)
  | some k ↦
      let (id, c') = next_message_id prefix c in
      converse (sent_request (record req { message_id = id })) (await max_unsolicited_messages id)
        c' k
]

-- `m[key] = v`
unfoldable pub set_member : String → Json → Fields → Fields
set_member key v end = field key v end
set_member key v (field k w fs) =
    let rest = set_member key v fs in if k == key then field k v fs else field k w rest

-- `Client.DoRaw`
unfoldable pub do_raw : Fields → Client → Result Fields × Client
unfolding converse
do_raw req c = elim c.conn [
  | none ↦ (err not_connected, c)
  | some k ↦
      let (id, c') = next_message_id "raw" c in
      converse (sent_raw (set_member "messageID" (text id) req))
        (await_raw max_unsolicited_messages id) c' k
]

-- `Client.ReadMessage`: the next frame as a generic map. (A read waits with no deadline; here a
-- socket with no frame left is one that has been closed.)
next_frame : Conn → Result Fields × Conn
next_frame k = elim k.frames [
  | [] ↦ (err read_failed, k)
  | f ∷ fs ↦ elim (raw f) [
    | none ↦ (err read_failed, record k { frames = fs })
    | some msg ↦ (ok msg, record k { frames = fs })
  ]
]

unfoldable pub read_message : Client → Result Fields × Client
unfolding next_frame
read_message c = elim c.conn [
  | none ↦ (err not_connected, c)
  | some k ↦ let (result, k') = next_frame k in (result, record c { conn = some k' })
]

-- `Client.Close` and `Client.Connected`
unfoldable pub close : Client → Client
close c = record c { conn = none }

unfoldable pub connected : Client → Bool
connected c = elim c.conn [ none ↦ false | some k ↦ true ]

abbrev pub request : String → String → List Object → Request
request command condition objects = record {
  message_id = "";
  command = command;
  condition = condition;
  object_list = objects;
}

abbrev pub keys_of : String → List String → Object
keys_of objnam ks = record { obj_name = objnam; keys = ks; params = [] }

-- The object list of a response, or the error of the round trip.
abbrev pub objects_of : Result Response → Result (List ObjectData)
objects_of (ok resp) = ok resp.object_list
objects_of (err e) = err e

-- `Client.query`: a request over all objects that meet the condition.
unfoldable pub query : String → String → List String → Client → Result (List ObjectData) × Client
unfolding round_trip
query prefix condition ks c =
    let (result, c') =
      round_trip prefix (request "GetParamList" condition (keys_of "INCR" ks ∷ [])) c in
    (objects_of result, c')

-- `Client.Do`
unfoldable pub do_request : Request → Client → Result Response × Client
unfolding round_trip
do_request = round_trip "do"
