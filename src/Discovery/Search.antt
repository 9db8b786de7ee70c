-- ===== src/Discovery/Search.antt =====
-- The whole search of discovery.go: `DiscoverIntelliCenter`, `sendHostnameQuery` and
-- `readAndProcessResponse`, over what the sockets do, and what main.go makes of it.
-- `Bytes` and the packing and unpacking of messages are the package dnsmessage's.
pub mod Found
use pentameter.Prelude.{
  ℕ, ◌+◌, ◌<◌, String, Bool, true, false, Option, none, some, List, [], ◌∷◌, ◌++◌, map, ◌≡◌, refl,
  ap, arith, inl, inr, ◌⊎◌, ltb, ◌==◌, if◌then◌else◌, Bool-cases, Option-cases, ◌∙◌, sym,
}
use pentameter.IntelliCenter.Result.{Result, ok, err, resolve_failed}
use pentameter.Discovery.{
  Resource, Answer, malformed, absent, found, process_response, IsFirst, process_response-IsFirst,
}
use pentameter.Advertise.{RecordType, type_a, class_inet}
use pentameter.Discovery.Interfaces.{Interface, get_best_multicast_interface}
use pentameter.Discovery.Rounds.{
  Round, Outcome, discovered, query_failed, timed_out, waiting, discovery_timeout, is_due,
  after_response, collect, collect_hostname_response_with_retry,
}

-- The message of `sendHostnameQuery`: one question for the address of a name.
pub record HostnameQuery : Type 0 where
  pub id : ℕ
  pub recursion_desired : Bool
  pub name : String
  pub question_type : RecordType
  pub class : ℕ

abbrev pub query_of : String → HostnameQuery
query_of hostname = record {
  id = 0;
  recursion_desired = false;
  name = hostname;
  question_type = type_a;
  class = class_inet;
}

-- How a read of the socket goes.
pub data Read (Bytes : Type 0) : Type 0 where
  no_deadline no_read : Read Bytes
  bytes_read : Bytes → Read Bytes

-- One pass of the loop: the readings of the clock, whether a write succeeds, and the read.
pub record Pass (Bytes : Type 0) : Type 0 where
  pub checked : ℕ
  pub asked : ℕ
  pub sent : ℕ
  pub write_ok : Bool
  pub read : Read Bytes

pub data Search : Type 0 where
  no_address no_listener : Search
  searched : Outcome → Search

module _ {Bytes : Type 0} (pack : HostnameQuery → Option Bytes)
    (unpack : Bytes → Option (List Resource)) where
  -- `sendHostnameQuery`: whether it returns no error.
  unfoldable pub send_hostname_query : String → Bool → Bool
  send_hostname_query hostname write_ok = elim (pack (query_of hostname)) [
    | none ↦ false
    | some packed ↦ write_ok
  ]

  -- `readAndProcessResponse`; an error is `malformed`
  unfoldable pub read_and_process_response : Read Bytes → Answer
  unfolding process_response
  read_and_process_response no_deadline = malformed
  read_and_process_response no_read = malformed
  read_and_process_response (bytes_read data') = process_response (unpack data')

  -- A pass, as `collect` takes it.
  unfoldable pub round_of : Pass Bytes → Round
  unfolding send_hostname_query read_and_process_response
  round_of p = record {
    checked = p.checked;
    asked = p.asked;
    sent = p.sent;
    send_ok = send_hostname_query "pentair.local." p.write_ok;
    response = read_and_process_response p.read;
  }

  -- `DiscoverIntelliCenter`: the address of the group, the listener on the best interface or on the
  -- default one, and the loop from a reading of the clock on.
  unfoldable pub discover_intelli_center :
      Bool → Option (List Interface) → (Option Interface → Bool) → ℕ → List (Pass Bytes) → Search
  unfolding get_best_multicast_interface collect_hostname_response_with_retry round_of
  discover_intelli_center resolves interfaces listens start passes =
      if resolves
      then (if listens (get_best_multicast_interface interfaces)
          then searched (collect_hostname_response_with_retry start (map round_of passes)).0
          else no_listener)
      else no_address

-- What DiscoverIntelliCenter returns, where the loop is over.
unfoldable pub search_result : Search → Result String
search_result (searched (discovered ip)) = ok ip
search_result s = err resolve_failed

-- `newDiscoveryResolver`: no hook with a configured address.
unfoldable pub new_discovery_resolver : Bool → Result String → Option (Result String)
new_discovery_resolver auto_discover search = if auto_discover then some search else none

-- `resolveIntelliCenterIP`, where a failed search is fatal.
unfoldable pub resolve_intelli_center_ip : String → Result String → Result String
resolve_intelli_center_ip ip search = if ip == "" then search else ok ip
