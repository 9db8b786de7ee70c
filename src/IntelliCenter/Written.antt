-- ===== src/IntelliCenter/Written.antt =====
-- What a write leaves on the socket: `SetParams` of intellicenter/control.go over `roundTrip`.
use pentameter.Prelude.{
  String, some, List, [], ◌∷◌, ◌≡◌, ◌≢◌, refl, sym, ◌∙◌, ◌==◌, ap, arith, eq_iff, inl, inr,
  Option-cases, Bool-cases,
}
use pentameter.Prelude.Map.{Map}
use pentameter.IntelliCenter.Types.{Request, Response}
use pentameter.IntelliCenter.Result.{Result, ok, Result-cases}
use pentameter.IntelliCenter.Client.{
  Frame, Sent, sent_request, Conn, Client, await, max_unsolicited_messages, next_message_id,
  exchange, converse, round_trip, request,
}
use pentameter.IntelliCenter.Control.{set_params}

-- The request as a round trip sends it.
abbrev pub stamp : String → Request → Client → Sent
stamp prefix req c = sent_request (record req { message_id = (next_message_id prefix c).0 })

abbrev pub write_request : String → Map String → Request
write_request objnam params =
    request "SetParamList" "" (record { obj_name = objnam; keys = []; params = params } ∷ [])

exchange_sent :
    {A : Type 0} (m : Sent) (receive : List Frame → Result A × List Frame) (k : Conn) {a : A}
    → (exchange m receive k).0 ≡ ok a
    → (exchange m receive k).1.sent ≡ m ∷ k.sent
unfolding exchange
exchange_sent m receive k h = ground arith

converse_sent :
    {A : Type 0} (m : Sent) (receive : List Frame → Result A × List Frame) (c : Client) (k : Conn)
    {a : A}
    → (converse m receive c k).0 ≡ ok a
    → (k' : Conn) × ((converse m receive c k).1.conn ≡ some k') × (k'.sent ≡ m ∷ k.sent)
unfolding converse
converse_sent m receive c k h = ((exchange m receive k).1, refl, exchange_sent m receive k h)

-- A round trip that succeeds was connected, and has sent its request, exactly once.
pub round_trip_sent :
    (prefix : String) (req : Request) (c : Client) {r : Response}
    → (round_trip prefix req c).0 ≡ ok r
    → (k : Conn) × (k' : Conn) × (c.conn ≡ some k)
      × ((round_trip prefix req c).1.conn ≡ some k')
      × (k'.sent ≡ stamp prefix req c ∷ k.sent)
unfolding round_trip
round_trip_sent prefix req c h = elim (Option-cases c.conn) [
  | inl gone ↦ cc (rw (gone, round_trip) at h)
  | inr (k, here) ↦
      let (id, c') = next_message_id prefix c in
      let same : round_trip prefix req c
          ≡ converse (stamp prefix req c) (await max_unsolicited_messages id) c' k =
        ground arith in
      let (k', after, sent) =
        converse_sent (stamp prefix req c) (await max_unsolicited_messages id) c' k
          (ap (λ p. p.0) (sym same) ∙ h) in
      (k, k', here, ap (λ p. p.1.conn) same ∙ after, sent)
]

-- A write of params that returns without an error names an object and some params, was made over a
-- connection, and has sent exactly one request, which sets these params of this object.
pub set_params_sent :
    (objnam : String) (params : Map String) (c : Client)
    → (set_params objnam params c).0 ≡ ok tt
    → (k : Conn) × (k' : Conn) × (c.conn ≡ some k)
      × ((set_params objnam params c).1.conn ≡ some k')
      × (k'.sent ≡ stamp "set" (write_request objnam params) c ∷ k.sent)
      × (objnam ≢ "")
      × (params ≢ [])
unfolding set_params
set_params_sent objnam [] c h = ground arith
set_params_sent objnam (p ∷ ps) c h = elim (Bool-cases (objnam == "")) [
  | inl nobody ↦ cc (rw (nobody, set_params) at h)
  | inr named ↦
      let rt = round_trip "set" (write_request objnam (p ∷ ps)) c in
      elim (Result-cases rt.0) [
        | inl (r, answered) ↦
            let (k, k', here, after, sent) =
              round_trip_sent "set" (write_request objnam (p ∷ ps)) c answered in
            (k, k', here, ground arith, sent, ground (arith, eq_iff objnam ""), λ empty. cc)
        | inr (e, failed) ↦ ground arith
      ]
]
