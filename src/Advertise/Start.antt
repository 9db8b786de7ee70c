-- ===== src/Advertise/Start.antt =====
-- The start of the responder: `StartMDNSAdvertiser` of advertise.go, and what it has then.
use pentameter.Prelude.{
  if◌then◌else◌, ℕ, ◌<◌, ◌^◌, String, Bool, true, false, Option, none, some, List, ◌≡◌, inl, inr,
  refl, ap, ◌∙◌, Option-cases,
}
use pentameter.Prelude.Text.{parse_uint, parse_uint-lt}
use pentameter.Discovery.Interfaces.{
  Interface, Ip4, get_best_multicast_interface, get_interface_ipv4,
}
use pentameter.Discovery.Interfaces.Best.{
  IsChosen, IsFirstIp4, IsBest-IsChosen, get_interface_ipv4-IsFirstIp4,
  get_best_multicast_interface-IsBest,
}
use pentameter.Advertise.{MdnsAdvertiser}

-- What `StartMDNSAdvertiser` returns.
pub data Started : Type 0 where
  invalid_port no_local_ip listen_failed : Started
  advertising : MdnsAdvertiser → Started

abbrev start_on : String → Bool → ℕ → Option Ip4 → Started
start_on version listens port none = no_local_ip
start_on version listens port (some ip) =
    if listens
    then advertising (record { ip = ip; http_port = port; version = version })
    else listen_failed

-- `StartMDNSAdvertiser`, by the interfaces that there are and whether listening succeeds.
unfoldable pub start_mdns_advertiser : String → Option (List Interface) → Bool → String → Started
unfolding get_interface_ipv4 get_best_multicast_interface
start_mdns_advertiser version interfaces listens http_port = elim (parse_uint 16 http_port) [
  | none ↦ invalid_port
  | some port ↦
      start_on version listens port (get_interface_ipv4 (get_best_multicast_interface interfaces))
]

-- The port of the setting, and the first IPv4 address of the best of the interfaces.
abbrev pub IsStarted : List Interface → String → MdnsAdvertiser → Type 0
IsStarted is http_port a =
    (parse_uint 16 http_port ≡ some a.http_port)
    × (a.http_port < 2 ^ 16)
    × ((i : Interface) × IsChosen i is × IsFirstIp4 a.ip i)

start_on-advertising :
    (version : String) (listens : Bool) (port : ℕ) (o : Option Ip4) (a : MdnsAdvertiser)
    → start_on version listens port o ≡ advertising a
    → (o ≡ some a.ip) × (port ≡ a.http_port)
start_on-advertising version listens port none a h = cc
start_on-advertising version true port (some ip) a h = (cc, cc)
start_on-advertising version false port (some ip) a h = cc

address-found :
    (o : Option Interface) (ip : Ip4)
    → get_interface_ipv4 o ≡ some ip
    → (i : Interface) × (o ≡ some i) × (get_interface_ipv4 (some i) ≡ some ip)
unfolding get_interface_ipv4
address-found none ip h = cc
address-found (some i) ip h = (i, refl, h)

-- A responder that has been started has the port that the setting says, a number of 16 bits, and the
-- first IPv4 address of an interface of the list: the first that is up, takes multicasts, is no
-- loopback and has such an address, or else, where there is none like that, the first that is up and
-- takes multicasts.
pub start_mdns_advertiser-IsStarted :
    (version http_port : String) (is : List Interface) (listens : Bool) (a : MdnsAdvertiser)
    → start_mdns_advertiser version (some is) listens http_port ≡ advertising a
    → IsStarted is http_port a
unfolding start_mdns_advertiser
start_mdns_advertiser-IsStarted version http_port is listens a h =
    elim (Option-cases (parse_uint 16 http_port)) [
      | inl invalid ↦ cc (rw (invalid, start_mdns_advertiser) at h)
      | inr (port, parsed) ↦
          let (addressed, same) =
            start_on-advertising version listens port
              (get_interface_ipv4 (get_best_multicast_interface (some is))) a
              (rw (parsed, start_mdns_advertiser) at h) in
          let (i, best, first) =
            address-found (get_best_multicast_interface (some is)) a.ip addressed in
          let reads : parse_uint 16 http_port ≡ some a.http_port = parsed ∙ ap some same in
          (
            reads,
            parse_uint-lt 16 http_port a.http_port reads,
            (
              i,
              IsBest-IsChosen i is (get_best_multicast_interface-IsBest is i best),
              get_interface_ipv4-IsFirstIp4 i a.ip first,
            ),
          )
    ]
