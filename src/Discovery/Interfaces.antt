-- ===== src/Discovery/Interfaces.antt =====
-- The network interface for multicast: `getBestMulticastInterface` and its two tests of discovery.go,
-- and `getInterfaceIPv4` of advertise.go. What the package net lists is given.
pub mod Best
use pentameter.Prelude.{
  ℕ, String, Bool, true, false, Option, none, some, List, [], ◌∷◌, ◌&&◌, ◌||◌, not, any,
  if◌then◌else◌,
}

pub data Ip4 : Type 0 where
  ip4 : ℕ → ℕ → ℕ → ℕ → Ip4

-- An address of an interface: one with a network, whose `To4` is nil or not, or another.
pub data Addr : Type 0 where
  ip_net : Option Ip4 → Addr
  other_addr : Addr

-- An interface: three of its flags, and its addresses unless asking for them fails.
pub record Interface : Type 0 where
  pub name : String
  pub up : Bool
  pub multicast : Bool
  pub loopback : Bool
  pub addrs : Option (List Addr)

abbrev pub is_ipv4 : Addr → Bool
is_ipv4 (ip_net (some ip)) = true
is_ipv4 _ = false

abbrev pub has_ipv4 : Option (List Addr) → Bool
has_ipv4 none = false
has_ipv4 (some addrs) = any is_ipv4 addrs

-- `isIdealMulticastInterface`
unfoldable pub is_ideal_multicast_interface : Interface → Bool
is_ideal_multicast_interface i =
    if not i.up || not i.multicast then false else if i.loopback then false else has_ipv4 i.addrs

-- `isUsableMulticastInterface`
unfoldable pub is_usable_multicast_interface : Interface → Bool
is_usable_multicast_interface i = i.up && i.multicast

unfoldable pub first_that : (Interface → Bool) → List Interface → Option Interface
first_that p [] = none
first_that p (i ∷ is) = let rest = first_that p is in if p i then some i else rest

-- `getBestMulticastInterface`, over the interfaces unless asking for them fails.
unfoldable pub get_best_multicast_interface : Option (List Interface) → Option Interface
unfolding first_that is_ideal_multicast_interface is_usable_multicast_interface
get_best_multicast_interface none = none
get_best_multicast_interface (some is) = elim (first_that is_ideal_multicast_interface is) [
  | some i ↦ some i
  | none ↦ first_that is_usable_multicast_interface is
]

unfoldable pub first_ipv4 : List Addr → Option Ip4
first_ipv4 [] = none
first_ipv4 (ip_net (some ip) ∷ addrs) = some ip
first_ipv4 (ip_net none ∷ addrs) = first_ipv4 addrs
first_ipv4 (other_addr ∷ addrs) = first_ipv4 addrs

abbrev ipv4_of : Option (List Addr) → Option Ip4
unfolding first_ipv4
ipv4_of none = none
ipv4_of (some addrs) = first_ipv4 addrs

-- `getInterfaceIPv4`
unfoldable pub get_interface_ipv4 : Option Interface → Option Ip4
unfolding first_ipv4
get_interface_ipv4 none = none
get_interface_ipv4 (some i) = ipv4_of i.addrs
