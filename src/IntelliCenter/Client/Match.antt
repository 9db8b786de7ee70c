-- ===== src/IntelliCenter/Client/Match.antt =====
-- What a round trip returns: the response that carries the request's id, within ten frames.
use native.Mathlib.Nat.{zero-add, suc-add}
use pentameter.Prelude.{
  ℕ, zero, suc, ◌+◌, ◌-◌, ◌++◌, ◌≤◌, ◌<◌, Option, String, ◌≡◌, ◌≢◌, ap, sym, ◌∙◌, ◌⊎◌, Bool-cases,
  Option-cases, inl, inr, none, some, List, [], ◌∷◌, ◌==◌, eq_iff, arith, length, All,
}
use pentameter.IntelliCenter.Types.{Response, Request}
use pentameter.IntelliCenter.Json.{Fields}
use pentameter.IntelliCenter.Result.{Result, ok, err, not_connected}
use pentameter.IntelliCenter.Client.{
  Frame, broken, frame, typed, Write, written, Sent, sent_request, Conn, Client,
  max_unsolicited_messages, validate, await, next_message_id, converse, round_trip,
}

-- A frame that decodes to a response with another id: an unsolicited push, or a late response.
abbrev pub IsOther : String → Frame → Type 0
IsOther id f = (r : Response) × (typed f ≡ some r) × (r.message_id ≢ id)

-- The response carries the id, and its code is empty or 200.
abbrev pub IsAnswer : String → Response → Type 0
IsAnswer id r = (r.message_id ≡ id) × ((r.response ≡ "") ⊎ (r.response ≡ "200"))

validate-ok :
    (r : Response) {s : Response}
    → validate r ≡ ok s
    → (s ≡ r) × ((r.response ≡ "") ⊎ (r.response ≡ "200"))
unfolding validate
validate-ok r h = ground (arith, eq_iff r.response "", eq_iff r.response "200")

validate_of_good : (r : Response) → (r.response ≡ "") ⊎ (r.response ≡ "200") → validate r ≡ ok r
unfolding validate
validate_of_good r h = ground (arith, eq_iff r.response "", eq_iff r.response "200")

await_sound :
    (n : ℕ) (id : String) (fs : List Frame) {r : Response}
    → (await n id fs).0 ≡ ok r
    → IsAnswer id r
unfolding await
await_sound zero id fs h = cc
await_sound (suc n) id [] h = cc
await_sound (suc n) id (broken ∷ fs) h = cc
await_sound (suc n) id (frame none g ∷ fs) h = cc
await_sound (suc n) id (frame (some s) g ∷ fs) h = elim (Bool-cases (s.message_id == id)) [
  | inl same ↦
      let (e, good) = validate-ok s (rw same at h) in rw e ((eq_iff s.message_id id).0 same, good)
  | inr other ↦ await_sound n id fs (rw other at h)
]

-- Frames of other ids are skipped, as long as rounds are left.
await-skip :
    (n : ℕ) (id : String) (skipped rest : List Frame)
    → All (IsOther id) skipped
    → await (length skipped + n) id (skipped ++ rest) ≡ await n id rest
unfolding await
await-skip n id [] rest h = rw zero-add
await-skip n id (broken ∷ skipped) rest h = cc (h.0.1)
await-skip n id (frame none g ∷ skipped) rest h = cc (h.0.1)
await-skip n id (frame (some s) g ∷ skipped) rest h =
    ground
      (arith, suc-add (length skipped) n, await-skip n id skipped rest h.1, eq_iff s.message_id id)

-- The answer is found behind fewer than `n` others.
await-finds :
    (n : ℕ) (id : String) (skipped rest : List Frame) (r : Response) (g : Option Fields)
    → All (IsOther id) skipped
    → length skipped < n
    → IsAnswer id r
    → await n id (skipped ++ frame (some r) g ∷ rest) ≡ (ok r, rest)
unfolding await
await-finds n id skipped rest r g others few answer =
    let spare : ℕ = n - length skipped - 1 in
    let enough : n ≡ length skipped + suc spare = omega arith in
    rw enough (
      await-skip (suc spare) id skipped _ others
      ∙ ground (arith, validate_of_good r answer.1, eq_iff r.message_id id))

-- At most `n` frames are read.
await_reads : (n : ℕ) (id : String) (fs : List Frame) → length fs ≤ length (await n id fs).1 + n
unfolding await
await_reads zero id fs = omega arith
await_reads (suc n) id [] = omega arith
await_reads (suc n) id (f ∷ fs) = ground (arith, await_reads n id fs)

module _ {A : Type 0} (m : Sent) (receive : List Frame → Result A × List Frame) where
  -- An answer is what the reads gave.
  pub converse-ok :
      (c : Client) (k : Conn) {a : A}
      → (converse m receive c k).0 ≡ ok a
      → (receive k.frames).0 ≡ ok a
  unfolding converse
  converse-ok c k h = ground arith

  -- What a written request leads to.
  pub converse_written :
      (c : Client) (k : Conn) (ws : List Write)
      → k.writes ≡ written ∷ ws
      → converse m receive c k ≡ (
        (receive k.frames).0,
        record c {
          conn = some (record { writes = ws; frames = (receive k.frames).1; sent = m ∷ k.sent });
        },
      )
  unfolding converse
  converse_written c k ws h = ground arith

module _ (prefix : String) (req : Request) (c : Client) where
  -- The request as it is sent, and the client after it was answered.
  abbrev stamped : Sent
  stamped = sent_request (record req { message_id = (next_message_id prefix c).0 })

  abbrev answered : Client
  answered = (next_message_id prefix c).1

  abbrev listen : List Frame → Result Response × List Frame
  listen = await max_unsolicited_messages (next_message_id prefix c).0

  round_trip-converse :
      (k : Conn) → c.conn ≡ some k → round_trip prefix req c ≡ converse stamped listen answered k
  unfolding round_trip
  round_trip-converse k here = ground arith

  -- A round trip that succeeds returns a response with the id of its own request, and with a code
  -- that is empty or 200.
  pub round_trip_sound :
      {r : Response} → (round_trip prefix req c).0 ≡ ok r → IsAnswer (next_message_id prefix c).0 r
  unfolding round_trip
  round_trip_sound h = elim (Option-cases c.conn) [
    | inl gone ↦ cc (rw gone at h)
    | inr (k, here) ↦ await_sound 10 _ k.frames (
        converse-ok stamped listen answered k
          (sym (ap (λ (p : Result Response × Client). p.0) (round_trip-converse k here)) ∙ h))
  ]

  -- A connected client whose request is written finds its answer behind at most nine frames of
  -- other ids: it returns that answer, has sent the request once, and leaves exactly the frames
  -- after the answer unread.
  pub round_trip-finds :
      (k : Conn) (ws : List Write) (skipped rest : List Frame) (r : Response) (g : Option Fields)
      → c.conn ≡ some k
      → k.writes ≡ written ∷ ws
      → k.frames ≡ skipped ++ frame (some r) g ∷ rest
      → All (IsOther (next_message_id prefix c).0) skipped
      → length skipped < 10
      → IsAnswer (next_message_id prefix c).0 r
      → round_trip prefix req c ≡ (
        ok r,
        record answered {
          conn = some (record { writes = ws; frames = rest; sent = stamped ∷ k.sent });
        },
      )
  round_trip-finds k ws skipped rest r g here write frames others few answer =
      round_trip-converse k here
      ∙ converse_written stamped listen answered k ws write
      ∙ ap
          (λ (p : Result Response × List Frame). (
            p.0,
            record answered {
              conn = some (record { writes = ws; frames = p.1; sent = stamped ∷ k.sent });
            },
          ))
          (ap listen frames ∙ await-finds 10 _ skipped rest r g others few answer)

  -- Without a connection nothing is sent, and the client is unchanged.
  pub round_trip_unconnected : c.conn ≡ none → round_trip prefix req c ≡ (err not_connected, c)
  unfolding round_trip
  round_trip_unconnected gone = ground arith

  -- A round trip reads at most ten frames, whatever they are.
  pub round_trip_reads :
      (k k' : Conn)
      → c.conn ≡ some k
      → (round_trip prefix req c).1.conn ≡ some k'
      → length k.frames ≤ length k'.frames + 10
  unfolding round_trip
  round_trip_reads k k' here after =
      ground (arith, await_reads max_unsolicited_messages (next_message_id prefix c).0 k.frames)
