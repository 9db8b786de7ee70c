-- ===== src/Homebridge/Metrics.antt =====
-- The metrics of the sidecar: `startHBMetrics` and `hbMetrics.close` of homebridge.go, by whether the
-- port can be bound and by what the start of the responder meets.
use pentameter.Prelude.{
  String, Bool, true, false, Option, none, some, List, ◌≡◌, refl, ◌==◌, if◌then◌else◌,
}
use pentameter.IntelliCenter.Engine.{Engine, subscribe}
use pentameter.Discovery.Interfaces.{Interface}
use pentameter.Advertise.{MdnsAdvertiser}
use pentameter.Advertise.Start.{
  Started, invalid_port, no_local_ip, listen_failed, advertising, start_mdns_advertiser, IsStarted,
  start_mdns_advertiser-IsStarted,
}

-- The field of `hbMetrics` that its start sets.
pub record HbMetrics : Type 0 where
  pub adv : Option MdnsAdvertiser

-- The responder, or none where its start returns an error.
abbrev pub advertiser_of : Started → Option MdnsAdvertiser
advertiser_of (advertising a) = some a
advertiser_of invalid_port = none
advertiser_of no_local_ip = none
advertiser_of listen_failed = none

module _ {F : Type 0} where
  -- `startHBMetrics`: the subscription comes first, and the responder only where the port is bound.
  unfoldable pub start_hb_metrics :
      String → Option (List Interface) → Bool → Bool → String → Engine F → Engine F × HbMetrics
  unfolding subscribe start_mdns_advertiser
  start_hb_metrics version interfaces listens binds port e = (
    subscribe e,
    if binds
        then record { adv = advertiser_of (start_mdns_advertiser version interfaces listens port) }
        else record { adv = none },
  )

-- `hbMetrics.close`
unfoldable pub close_hb_metrics : HbMetrics → HbMetrics
close_hb_metrics m = record { adv = none }

module _ {F : Type 0} where
  -- `hbRun`: no metrics without a port.
  unfoldable pub metrics_of :
      String
      → Option (List Interface)
      → Bool
      → Bool
      → String
      → Engine F
      → Engine F × Option HbMetrics
  unfolding start_hb_metrics
  metrics_of version interfaces listens binds port e =
      let (e', m) = start_hb_metrics version interfaces listens binds port e in
      if port == "" then (e, none) else (e', some m)

advertiser-started :
    (s : Started) (a : MdnsAdvertiser) → advertiser_of s ≡ some a → s ≡ advertising a
advertiser-started (advertising b) a h = cc
advertiser-started invalid_port a h = cc
advertiser-started no_local_ip a h = cc
advertiser-started listen_failed a h = cc

-- The sidecar advertises only a port that it has bound: the number of 16 bits that the setting says. It
-- does so with the first IPv4 address of an interface of the list: of the first that is up, takes
-- multicasts, is no loopback and has an IPv4 address, or else, where none is like that, of the first
-- that is up and takes multicasts.
pub start_hb_metrics-IsStarted :
    {F : Type 0} (version : String) (is : List Interface) (listens binds : Bool) (port : String)
    (e : Engine F) (a : MdnsAdvertiser)
    → (start_hb_metrics version (some is) listens binds port e).1.adv ≡ some a
    → (binds ≡ true) × IsStarted is port a
unfolding start_hb_metrics
start_hb_metrics-IsStarted version is listens true port e a h =
    (refl, start_mdns_advertiser-IsStarted version port is listens a (advertiser-started _ a h))
start_hb_metrics-IsStarted version is listens false port e a h = cc
