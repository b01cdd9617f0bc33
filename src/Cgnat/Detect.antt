-- ===== src/Cgnat/Detect.antt =====
-- core/node/libp2p/cgnat.go: classifyNAT, and the latch of MonitorCGNAT over the checks that it makes.
-- An IPv4 address is its 32-bit number; an address without one is `none`. What a host answers is
-- a parameter of each check.
use kubo.Common.{
  ℕ, ◌/◌, Bool, true, false, ◌&&◌, ◌||◌, Option, none, some, List, [], ◌∷◌, if◌then◌else◌, nat_eq,
  contains, ℕ_eq,
}

pub data NatKind : Type 0 where
  nat_unknown nat_cgnat nat_double_nat : NatKind

pub data Reachability : Type 0 where
  unknown_reachability public_reachability private_reachability : Reachability

abbrev pub is_public : Reachability → Bool
is_public public_reachability = true
is_public unknown_reachability = false
is_public private_reachability = false

-- cgnatNet.Contains: 100.64.0.0/10
abbrev pub in_cgnat_net : ℕ → Bool
in_cgnat_net ip = nat_eq (ip / 4194304) 401

-- IP.IsPrivate: 10.0.0.0/8, 172.16.0.0/12 and 192.168.0.0/16
abbrev pub is_private : ℕ → Bool
is_private ip = nat_eq (ip / 16777216) 10 || nat_eq (ip / 1048576) 2753 || nat_eq (ip / 65536) 49320

abbrev pub is_unknown : NatKind → Bool
is_unknown nat_unknown = true
is_unknown nat_cgnat = false
is_unknown nat_double_nat = false

-- The switch of the loop, for an address of no interface.
abbrev pub next_kind : NatKind → ℕ → NatKind
next_kind kind ip =
    if in_cgnat_net ip
    then nat_cgnat
    else if is_private ip && is_unknown kind
    then nat_double_nat
    else kind

-- The loop over the addresses.
unfoldable pub classify_from : NatKind → List (Option ℕ) → List ℕ → NatKind
classify_from kind [] iface_ips = kind
classify_from kind (none ∷ addrs) iface_ips = classify_from kind addrs iface_ips
classify_from kind (some ip ∷ addrs) iface_ips =
    classify_from (if contains iface_ips ip then kind else next_kind kind ip) addrs iface_ips

unfoldable pub classify_nat : List (Option ℕ) → List ℕ → Reachability → NatKind
classify_nat all_addrs iface_ips r =
    if is_public r then nat_unknown else classify_from nat_unknown all_addrs iface_ips

-- latchNotice: the kind to report, if there is one
unfoldable pub latch_notice : NatKind → NatKind → Option NatKind
latch_notice reported nat_unknown = none
latch_notice nat_cgnat nat_cgnat = none
latch_notice nat_unknown nat_cgnat = some nat_cgnat
latch_notice nat_double_nat nat_cgnat = some nat_cgnat
latch_notice nat_unknown nat_double_nat = some nat_double_nat
latch_notice nat_cgnat nat_double_nat = none
latch_notice nat_double_nat nat_double_nat = none

-- What a host answers at one check.
pub record HostView : Type 0 where
  pub all_addrs : List (Option ℕ)
  pub iface_ips : List ℕ
  pub reachability : Reachability

abbrev pub detect_nat_kind : HostView → NatKind
detect_nat_kind h = classify_nat h.all_addrs h.iface_ips h.reachability

-- The notices of the checks of MonitorCGNAT, in order, from what is reported.
unfoldable pub monitor : NatKind → List HostView → List NatKind
monitor reported [] = []
monitor reported (h ∷ hosts) = elim (latch_notice reported (detect_nat_kind h)) [
  | none ↦ monitor reported hosts
  | some next ↦ next ∷ monitor next hosts
]
