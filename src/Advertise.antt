-- ===== src/Advertise.antt =====
-- The mDNS responder of advertise.go: which messages it sends for a query. The package dnsmessage
-- packs and unpacks messages, and the sockets send them; `pack` and `unpack` stand for the former.
pub mod Relevant
pub mod Browse
pub mod Silent
pub mod Start
use Prim.Native.String.{◌++◌ as concat}
use pentameter.Prelude.{
  ℕ, ◌/◌, ◌%◌, ◌^◌, String, Bool, true, false, Option, none, some, List, [], ◌∷◌, ◌++◌, ◌&&◌, eqb,
  not, map, if◌then◌else◌,
}
use pentameter.Prelude.Text.{to_lower, equal_fold}
use pentameter.Discovery.Interfaces.{Ip4}

-- The types of DNS that the program names, and the others by their number.
pub data RecordType : Type 0 where
  type_a type_ptr type_srv type_txt : RecordType
  type_other : ℕ → RecordType

abbrev pub same_type : RecordType → RecordType → Bool
same_type type_a type_a = true
same_type type_ptr type_ptr = true
same_type type_srv type_srv = true
same_type type_txt type_txt = true
same_type (type_other m) (type_other n) = eqb m n
same_type _ _ = false

pub record Question : Type 0 where
  pub name : String
  pub question_type : RecordType
  pub class : ℕ

pub data Body : Type 0 where
  a_resource : Ip4 → Body
  ptr_resource : String → Body
  -- priority, weight, port and target
  srv_resource : ℕ → ℕ → ℕ → String → Body
  txt_resource : List String → Body

pub record Resource : Type 0 where
  pub name : String
  pub resource_type : RecordType
  pub class : ℕ
  pub ttl : ℕ
  pub body : Body

pub record Message : Type 0 where
  pub response : Bool
  pub authoritative : Bool
  pub questions : List Question
  pub answers : List Resource
  pub additionals : List Resource

-- The fields of `MDNSAdvertiser` that decide what it sends, and the program's version.
pub record MdnsAdvertiser : Type 0 where
  pub ip : Ip4
  pub http_port : ℕ
  pub version : String

abbrev pub pentameter_hostname : String
pentameter_hostname = "pentameter.local."

abbrev pub dns_sd_service_name : String
dns_sd_service_name = "_services._dns-sd._udp.local."

abbrev pub mdns_ttl : ℕ
mdns_ttl = 120

abbrev pub class_inet : ℕ
class_inet = 1

pub record ServiceType : Type 0 where
  pub service : String
  pub instance_name : String

abbrev pub all_service_types : List ServiceType
all_service_types =
    record {
      service = "_pentameter._tcp.local.";
      instance_name = "pentameter._pentameter._tcp.local.";
    }
    ∷ record { service = "_http._tcp.local."; instance_name = "pentameter._http._tcp.local." }
    ∷ record {
      service = "_prometheus-http._tcp.local.";
      instance_name = "pentameter._prometheus-http._tcp.local.";
    }
    ∷ []

abbrev pub resource : String → RecordType → Body → Resource
resource name t b = record {
  name = name;
  resource_type = t;
  class = class_inet;
  ttl = mdns_ttl;
  body = b;
}

-- An authoritative response, as each builder makes it.
abbrev pub answering : List Resource → List Resource → Message
answering answers additionals = record {
  response = true;
  authoritative = true;
  questions = [];
  answers = answers;
  additionals = additionals;
}

unfoldable pub build_a_response : MdnsAdvertiser → String → Message
build_a_response a name = answering (resource name type_a (a_resource a.ip) ∷ []) []

unfoldable pub build_ptr_response : String → String → Message
build_ptr_response service name = answering (resource service type_ptr (ptr_resource name) ∷ []) []

unfoldable pub enum_responses : List ServiceType → List Message
enum_responses [] = []
enum_responses (svc ∷ services) =
    answering (resource dns_sd_service_name type_ptr (ptr_resource svc.service) ∷ []) []
    ∷ enum_responses services

-- `buildServiceEnumResponses`
unfoldable pub build_service_enum_responses : List Message
unfolding enum_responses
build_service_enum_responses = enum_responses all_service_types

unfoldable pub build_srv_response : MdnsAdvertiser → String → Message
build_srv_response a name =
    answering (resource name type_srv (srv_resource 0 0 a.http_port pentameter_hostname) ∷ [])
      (resource pentameter_hostname type_a (a_resource a.ip) ∷ [])

unfoldable pub build_txt_response : MdnsAdvertiser → String → Message
build_txt_response a name =
    answering
      (resource name type_txt (txt_resource ("path=/metrics" ∷ concat "version=" a.version ∷ []))
        ∷ [])
      []

-- The loop of `buildResponses` over the service types.
unfoldable pub service_responses : MdnsAdvertiser → Question → List ServiceType → List Message
unfolding build_ptr_response build_srv_response build_txt_response
service_responses a q [] = []
service_responses a q (svc ∷ services) =
    let rest = service_responses a q services in
    if equal_fold q.name svc.service && same_type q.question_type type_ptr
    then build_ptr_response svc.service svc.instance_name ∷ []
    else if equal_fold q.name svc.instance_name && same_type q.question_type type_srv
    then build_srv_response a svc.instance_name ∷ []
    else if equal_fold q.name svc.instance_name && same_type q.question_type type_txt
    then build_txt_response a svc.instance_name ∷ []
    else rest

-- `buildResponses`
unfoldable pub build_responses : MdnsAdvertiser → Question → List Message
unfolding service_responses build_a_response build_service_enum_responses
build_responses a q =
    if equal_fold q.name pentameter_hostname && same_type q.question_type type_a
    then build_a_response a q.name ∷ []
    else if equal_fold q.name dns_sd_service_name && same_type q.question_type type_ptr
    then build_service_enum_responses
    else service_responses a q all_service_types

-- Where a packet goes: to the querier, or to the multicast group.
pub data Packet (P : Type 0) (R : Type 0) : Type 0 where
  unicast_to : R → P → Packet P R
  multicast : P → Packet P R

-- Whether the top bit of the class, a number of 16 bits, is set.
abbrev pub wants_unicast : ℕ → Bool
wants_unicast class = not (eqb (class / 2 ^ 15 % 2) 0)

module _ {P : Type 0} {R : Type 0} (pack : Message → Option P) where
  abbrev pub send_response : Bool → R → Option P → List (Packet P R)
  send_response unicast remote none = []
  send_response true remote (some p) = unicast_to remote p ∷ []
  send_response false remote (some p) = multicast p ∷ []

  -- The packets for a list of responses; one that does not pack is left out.
  unfoldable pub send_responses : Bool → R → List Message → List (Packet P R)
  send_responses unicast remote [] = []
  send_responses unicast remote (m ∷ responses) =
      send_response unicast remote (pack m) ++ send_responses unicast remote responses

  -- `answerQuestion`
  unfoldable pub answer_question : MdnsAdvertiser → R → Question → List (Packet P R)
  unfolding send_responses build_responses
  answer_question a remote q = send_responses (wants_unicast q.class) remote (build_responses a q)

  unfoldable pub answer_questions : MdnsAdvertiser → R → List Question → List (Packet P R)
  unfolding answer_question
  answer_questions a remote [] = []
  answer_questions a remote (q ∷ questions) =
      answer_question a remote q ++ answer_questions a remote questions

  -- `handleQuery`, on what the received bytes unpack to
  unfoldable pub handle_query : MdnsAdvertiser → R → Option Message → List (Packet P R)
  unfolding answer_questions
  handle_query a remote none = []
  handle_query a remote (some msg) =
      if msg.response then [] else answer_questions a remote msg.questions
