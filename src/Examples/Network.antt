-- ===== src/Examples/Network.antt =====
-- The responder of advertise.go and the search of discovery.go at concrete inputs.
use pentameter.Prelude.{
  ◌≤◌, ◌<◌, ◌+◌, String, true, false, Option, some, List, [], ◌∷◌, ◌==◌, ◌≡◌, refl, ap, sym, arith,
  eq_iff, All, if◌then◌else◌, if_elim_then,
}
use pentameter.Prelude.Text.{to_lower}
use pentameter.Discovery.{malformed, absent, found}
use pentameter.Discovery.Interfaces.{ip4}
use pentameter.Discovery.Rounds.{
  Round, discovery_timeout, discovered, waiting, collect_hostname_response_with_retry,
  collect_hostname_response_with_retry-bounds,
}
use pentameter.Advertise.{
  type_ptr, Message, MdnsAdvertiser, Packet, all_service_types, handle_query,
}
use pentameter.Advertise.Relevant.{RepliesToAny, handle_query-Replies}
use pentameter.Advertise.Silent.{KeepsResponse, payload, handle_query-ignored}
use pentameter.Advertise.Browse.{ask, browse, endpoints, browse-endpoints}

abbrev responder : MdnsAdvertiser
responder = record { ip = ip4 192 168 1 20; http_port = 8080; version = "1.0" }

-- One question wants the answer itself, the other is not about the responder.
abbrev query : Message
query = record {
  response = false;
  authoritative = false;
  questions =
      record { name = "_HTTP._tcp.local."; question_type = type_ptr; class = 32769 }
      ∷ record { name = "_ipp._tcp.local."; question_type = type_ptr; class = 1 }
      ∷ [];
  answers = [];
  additionals = [];
}

abbrev querier : String
querier = "192.168.1.9"

-- Messages that need no packing.
abbrev plain : Message → Option Message
plain m = some m

handle_query-Replies_example :
    All
      (RepliesToAny plain querier query.questions)
      (handle_query plain responder querier (some query))
handle_query-Replies_example = handle_query-Replies plain querier responder query

plain-KeepsResponse : KeepsResponse plain plain
plain-KeepsResponse m p packed =
    let same : m ≡ p = cc packed in (p, refl, ap (λ n. n.response) (sym same))

handle_query-ignored_example :
    All
      (λ (s : Packet Message String).
        handle_query plain responder querier (plain (payload plain plain s)) ≡ [])
      (handle_query plain responder querier (some query))
handle_query-ignored_example =
    handle_query-ignored plain plain plain-KeepsResponse responder responder querier querier query

-- A client that writes one name in capitals.
abbrev spell : String → String
spell s = if s == "_http._tcp.local." then "_HTTP._TCP.LOCAL." else s

spell-fold : (s : String) → to_lower (spell s) ≡ to_lower s
unfolding to_lower
spell-fold s =
    if_elim_then (λ t. to_lower t ≡ to_lower s) (s == "_http._tcp.local.")
      (λ h.
        let same : ◌≡◌ {A = String} s "_http._tcp.local." =
          ground (arith, eq_iff s "_http._tcp.local.", h) in
        ap to_lower (sym same))
      refl

browse-endpoints_example : browse (ask responder spell) ≡ endpoints responder all_service_types
browse-endpoints_example = browse-endpoints responder spell spell-fold

-- A round without an answer, one in which no query is due, and one that finds the controller.
abbrev rounds : List Round
rounds =
    record { checked = 10; asked = 20; sent = 30; send_ok = true; response = malformed }
    ∷ record {
      checked = 100000040;
      asked = 100000050;
      sent = 100000060;
      send_ok = true;
      response = absent;
    }
    ∷ record {
      checked = 2000000040;
      asked = 2000000050;
      sent = 2000000060;
      send_ok = true;
      response = found "192.168.1.20";
    }
    ∷ []

collect_hostname_response_with_retry-bounds_example :
    ((collect_hostname_response_with_retry 5 rounds).1 ≤ 31)
    × ((collect_hostname_response_with_retry 5 rounds).0 ≡ waiting
        → All (λ r. r.checked < 5 + discovery_timeout) rounds)
collect_hostname_response_with_retry-bounds_example =
    collect_hostname_response_with_retry-bounds 5 rounds (
      omega arith,
      omega arith,
      omega arith,
      (omega arith, omega arith, omega arith, (omega arith, omega arith, omega arith, tt)),
    )

searched_example : collect_hostname_response_with_retry 5 rounds ≡ (discovered "192.168.1.20", 2)
unfolding collect_hostname_response_with_retry
searched_example = refl
