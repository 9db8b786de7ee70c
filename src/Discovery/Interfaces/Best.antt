-- ===== src/Discovery/Interfaces/Best.antt =====
-- Which interface discovery.go and advertise.go use: the first that suits best.
use pentameter.Prelude.{
  Bool, true, false, none, some, List, [], ◌∷◌, ◌++◌, ◌≡◌, ◌⊎◌, inl, inr, ap, All, Option-cases,
  Bool-cases, Option, refl, any, arith, ◌∙◌,
}
use pentameter.Discovery.Interfaces.{
  Ip4, Addr, ip_net, other_addr, is_ipv4, has_ipv4, first_ipv4, get_interface_ipv4, Interface,
  first_that, is_ideal_multicast_interface, is_usable_multicast_interface,
  get_best_multicast_interface,
}

-- The interface passes a test, which no interface before it in the list does.
abbrev pub IsFirstThat : (Interface → Bool) → Interface → List Interface → Type 0
IsFirstThat p i is =
    (before : List Interface) × (after : List Interface) × (is ≡ before ++ i ∷ after)
    × (p i ≡ true)
    × All (λ j. p j ≡ false) before

first_that-some :
    (p : Interface → Bool) (is : List Interface) (i : Interface)
    → first_that p is ≡ some i
    → IsFirstThat p i is
unfolding first_that
first_that-some p [] i h = cc
first_that-some p (j ∷ is) i h = elim (Bool-cases (p j)) [
  | inl passing ↦
      let same : j ≡ i = cc (rw (passing, first_that) at h) in
      ([], is, ap (λ k. k ∷ is) same, cc (same, passing), tt)
  | inr failing ↦
      let (before, after, whole, passes, others) =
        first_that-some p is i (rw (failing, first_that) at h) in
      (j ∷ before, after, ap (λ r. j ∷ r) whole, passes, (failing, others))
]

first_that-none :
    (p : Interface → Bool) (is : List Interface)
    → first_that p is ≡ none
    → All (λ j. p j ≡ false) is
unfolding first_that
first_that-none p [] h = tt
first_that-none p (j ∷ is) h = elim (Bool-cases (p j)) [
  | inl passing ↦ cc (rw (passing, first_that) at h)
  | inr failing ↦ (failing, first_that-none p is (rw (failing, first_that) at h))
]

-- The interface is the first ideal one, or there is no ideal one and it is the first usable one.
abbrev pub IsBest : Interface → List Interface → Type 0
IsBest i is =
    IsFirstThat is_ideal_multicast_interface i is
    ⊎ (All (λ j. is_ideal_multicast_interface j ≡ false) is
        × IsFirstThat is_usable_multicast_interface i is)

pub get_best_multicast_interface-IsBest :
    (is : List Interface) (i : Interface)
    → get_best_multicast_interface (some is) ≡ some i
    → IsBest i is
unfolding get_best_multicast_interface
get_best_multicast_interface-IsBest is i h =
    elim (Option-cases (first_that is_ideal_multicast_interface is)) [
      | inl nothing ↦ inr (
        first_that-none is_ideal_multicast_interface is nothing,
        first_that-some is_usable_multicast_interface is i
            (rw (nothing, get_best_multicast_interface) at h),
      )
      | inr (j, at) ↦
          let same : j ≡ i = cc (rw (at, get_best_multicast_interface) at h) in
          inl (first_that-some is_ideal_multicast_interface is i (cc (at, same)))
    ]

-- An address that is not one of IPv4.
abbrev pub IsNoIp4 : Addr → Type 0
IsNoIp4 (ip_net (some ip)) = ⊥
IsNoIp4 (ip_net none) = Unit
IsNoIp4 other_addr = Unit

-- The first IPv4 address among the addresses of the interface.
abbrev pub IsFirstIp4 : Ip4 → Interface → Type 0
IsFirstIp4 ip i =
    (before : List Addr) × (after : List Addr) × (i.addrs
      ≡ some (before ++ ip_net (some ip) ∷ after))
    × All IsNoIp4 before

abbrev pub IsUsable : Interface → Type 0
IsUsable i = (i.up ≡ true) × (i.multicast ≡ true)

abbrev pub IsIdeal : Interface → Type 0
IsIdeal i =
    (i.up ≡ true) × (i.multicast ≡ true) × (i.loopback ≡ false) × ((ip : Ip4) × IsFirstIp4 ip i)

-- The interface is so, and none before it in the list is.
abbrev pub IsFirst : (Interface → Type 0) → Interface → List Interface → Type 0
IsFirst P i is =
    (before : List Interface) × (after : List Interface) × (is ≡ before ++ i ∷ after)
    × P i
    × All (λ j. ¬ P j) before

abbrev pub IsChosen : Interface → List Interface → Type 0
IsChosen i is = IsFirst IsIdeal i is ⊎ (All (λ j. ¬ IsIdeal j) is × IsFirst IsUsable i is)

first_ipv4-IsFirstIp4 :
    (addrs : List Addr) (ip : Ip4)
    → first_ipv4 addrs ≡ some ip
    → (before : List Addr) × (after : List Addr) × (addrs ≡ before ++ ip_net (some ip) ∷ after)
      × All IsNoIp4 before
unfolding first_ipv4
first_ipv4-IsFirstIp4 [] ip h = cc
first_ipv4-IsFirstIp4 (ip_net (some other) ∷ addrs) ip h =
    let same : other ≡ ip = cc in ([], addrs, ap (λ o. ip_net (some o) ∷ addrs) same, tt)
first_ipv4-IsFirstIp4 (ip_net none ∷ addrs) ip h =
    let (before, after, whole, others) = first_ipv4-IsFirstIp4 addrs ip h in
    (ip_net none ∷ before, after, ap (λ l. ip_net none ∷ l) whole, (tt, others))
first_ipv4-IsFirstIp4 (other_addr ∷ addrs) ip h =
    let (before, after, whole, others) = first_ipv4-IsFirstIp4 addrs ip h in
    (other_addr ∷ before, after, ap (λ l. other_addr ∷ l) whole, (tt, others))

-- Some address is found exactly where there is one.
any-first_ipv4 :
    (addrs : List Addr) → any is_ipv4 addrs ≡ true → (ip : Ip4) × (first_ipv4 addrs ≡ some ip)
unfolding first_ipv4
any-first_ipv4 [] h = cc
any-first_ipv4 (ip_net (some ip) ∷ addrs) h = (ip, refl)
any-first_ipv4 (ip_net none ∷ addrs) h = any-first_ipv4 addrs h
any-first_ipv4 (other_addr ∷ addrs) h = any-first_ipv4 addrs h

any-there :
    (before after : List Addr) (ip : Ip4) → any is_ipv4 (before ++ ip_net (some ip) ∷ after) ≡ true
any-there [] after ip = refl
any-there (ip_net (some other) ∷ before) after ip = refl
any-there (ip_net none ∷ before) after ip = any-there before after ip
any-there (other_addr ∷ before) after ip = any-there before after ip

pub get_interface_ipv4-IsFirstIp4 :
    (i : Interface) (ip : Ip4) → get_interface_ipv4 (some i) ≡ some ip → IsFirstIp4 ip i
unfolding get_interface_ipv4
get_interface_ipv4-IsFirstIp4 i ip h = elim (Option-cases i.addrs) [
  | inl unknown ↦ cc (rw (unknown, get_interface_ipv4) at h)
  | inr (addrs, known) ↦
      let (before, after, whole, others) =
        first_ipv4-IsFirstIp4 addrs ip (rw (known, get_interface_ipv4) at h) in
      (before, after, known ∙ ap some whole, others)
]

has_ipv4-IsFirstIp4 :
    (o : Option (List Addr)) (i : Interface)
    → i.addrs ≡ o
    → has_ipv4 o ≡ true
    → (ip : Ip4) × IsFirstIp4 ip i
has_ipv4-IsFirstIp4 none i same h = cc
has_ipv4-IsFirstIp4 (some addrs) i same h =
    let (ip, found) = any-first_ipv4 addrs h in
    let (before, after, whole, others) = first_ipv4-IsFirstIp4 addrs ip found in
    (ip, (before, after, same ∙ ap some whole, others))

is_ideal_multicast_interface-IsIdeal :
    (i : Interface) → is_ideal_multicast_interface i ≡ true → IsIdeal i
unfolding is_ideal_multicast_interface
is_ideal_multicast_interface-IsIdeal i h = (
  ground (arith, h),
  ground (arith, h),
  ground (arith, h),
  has_ipv4-IsFirstIp4 i.addrs i refl (ground (arith, h)),
)

IsIdeal-ideal : (i : Interface) → IsIdeal i → is_ideal_multicast_interface i ≡ true
unfolding is_ideal_multicast_interface
IsIdeal-ideal i (up, multicast, remote, (ip, (before, after, at, others))) =
    let found : has_ipv4 i.addrs ≡ true = ap has_ipv4 at ∙ any-there before after ip in
    ground (arith, up, multicast, remote, found)

not-IsIdeal :
    (is : List Interface)
    → All (λ j. is_ideal_multicast_interface j ≡ false) is
    → All (λ j. ¬ IsIdeal j) is
not-IsIdeal [] h = tt
not-IsIdeal (j ∷ is) (here, later) =
    (λ ideal. cc (IsIdeal-ideal j ideal, here), not-IsIdeal is later)

not-IsUsable :
    (is : List Interface)
    → All (λ j. is_usable_multicast_interface j ≡ false) is
    → All (λ j. ¬ IsUsable j) is
unfolding is_usable_multicast_interface
not-IsUsable [] h = tt
not-IsUsable (j ∷ is) (here, later) =
    (λ (up, multicast). ground (arith, here, up, multicast), not-IsUsable is later)

pub IsBest-IsChosen : (i : Interface) (is : List Interface) → IsBest i is → IsChosen i is
unfolding is_usable_multicast_interface
IsBest-IsChosen i is (inl (before, after, whole, ideal, others)) =
    inl (
      before,
      after,
      whole,
      is_ideal_multicast_interface-IsIdeal i ideal,
      not-IsIdeal before others,
    )
IsBest-IsChosen i is (inr (none_ideal, (before, after, whole, usable, others))) = inr (
  not-IsIdeal is none_ideal,
  (
    before,
    after,
    whole,
    (ground (arith, usable), ground (arith, usable)),
    not-IsUsable before others,
  ),
)
