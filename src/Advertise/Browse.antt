-- ===== src/Advertise/Browse.antt =====
-- A client that browses finds what the responder of advertise.go advertises.
use pentameter.Prelude.{ℕ, String, List, [], ◌∷◌, ◌++◌, ◌&&◌, ◌≡◌, refl, ap, ◌∙◌, if_agree}
use pentameter.Prelude.Text.{to_lower, equal_fold}
use pentameter.Discovery.Interfaces.{Ip4}
use pentameter.Advertise.{
  RecordType, type_a, type_ptr, type_srv, same_type, Body, a_resource, ptr_resource, srv_resource,
  Resource, Message, MdnsAdvertiser, ServiceType, all_service_types, dns_sd_service_name,
  pentameter_hostname, service_responses, build_responses, build_a_response, build_ptr_response,
  build_srv_response, build_service_enum_responses, enum_responses,
}

abbrev pub bodies_of : List Resource → List Body
bodies_of [] = []
bodies_of (r ∷ rs) = r.body ∷ bodies_of rs

abbrev pub bodies : List Message → List Body
bodies [] = []
bodies (m ∷ ms) = bodies_of m.answers ++ bodies ms

-- What the responder answers, to a client that spells names its own way.
unfoldable pub ask : MdnsAdvertiser → (String → String) → String → RecordType → List Body
ask a spell name t =
    bodies (build_responses a (record { name = spell name; question_type = t; class = 1 }))

-- An advertised endpoint: the instance, its port and its address.
abbrev pub Endpoint : Type 0
Endpoint = String × ℕ × Ip4

module _ (asked : String → RecordType → List Body) where
  abbrev addresses : String → ℕ → List Body → List Endpoint
  addresses i port [] = []
  addresses i port (a_resource ip ∷ bs) = (i, port, ip) ∷ addresses i port bs
  addresses i port (b ∷ bs) = addresses i port bs

  abbrev hosts : String → List Body → List Endpoint
  hosts i [] = []
  hosts i (srv_resource priority weight port target ∷ bs) =
      addresses i port (asked target type_a) ++ hosts i bs
  hosts i (b ∷ bs) = hosts i bs

  abbrev instances : List Body → List Endpoint
  instances [] = []
  instances (ptr_resource i ∷ bs) = hosts i (asked i type_srv) ++ instances bs
  instances (b ∷ bs) = instances bs

  abbrev services : List Body → List Endpoint
  services [] = []
  services (ptr_resource s ∷ bs) = instances (asked s type_ptr) ++ services bs
  services (b ∷ bs) = services bs

  -- The client of RFC 6763: from the types of service to their instances, hosts and addresses.
  unfoldable pub browse : List Endpoint
  browse = services (asked dns_sd_service_name type_ptr)

-- The endpoint of each service type.
abbrev pub endpoints : MdnsAdvertiser → List ServiceType → List Endpoint
endpoints a [] = []
endpoints a (svc ∷ services) = (svc.instance_name, a.http_port, a.ip) ∷ endpoints a services

build_responses-fold :
    (a : MdnsAdvertiser) (m n : String) (t : RecordType) (class : ℕ)
    → to_lower m ≡ to_lower n
    → bodies (build_responses a (record { name = m; question_type = t; class = class }))
      ≡ bodies (build_responses a (record { name = n; question_type = t; class = class }))
unfolding build_responses build_a_response
build_responses-fold a m n t class h =
    rw h (if_agree bodies (equal_fold n pentameter_hostname && same_type t type_a) refl refl)

browse-plain : (a : MdnsAdvertiser) → browse (ask a (λ s. s)) ≡ endpoints a all_service_types
unfolding browse ask build_responses service_responses build_a_response build_ptr_response
    build_srv_response build_service_enum_responses enum_responses to_lower
browse-plain a = refl

-- A client that asks for the types of service, for their instances, for the host and port of each and
-- for the address of the host, in whatever case of the letters, finds the three instances, each with
-- the port and the address that the responder was started with.
pub browse-endpoints :
    (a : MdnsAdvertiser) (spell : String → String)
    → ((s : String) → to_lower (spell s) ≡ to_lower s)
    → browse (ask a spell) ≡ endpoints a all_service_types
unfolding ask
browse-endpoints a spell keeps =
    ap browse (λ i name t. build_responses-fold a (spell name) name t 1 (keeps name) i)
    ∙ browse-plain a
