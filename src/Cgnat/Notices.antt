-- ===== src/Cgnat/Notices.antt =====
-- What core/node/libp2p/cgnat.go detects and reports.
use kubo.Common.{
  ℕ, ◌≡◌, refl, Bool, true, false, not, ◌&&◌, ◌||◌, Option, none, some, List, [], ◌∷◌, ◌++◌,
  if◌then◌else◌, contains, ℕ_eq, Bool-cases, inl, inr, ap, ◌⊎◌,
}
use kubo.Cgnat.Detect.{
  NatKind, nat_unknown, nat_cgnat, nat_double_nat, is_public, in_cgnat_net, is_private,
  classify_from, classify_nat, latch_notice, HostView, detect_nat_kind, monitor,
}

-- An address of no interface that passes a test.
abbrev pub some_wan : (ℕ → Bool) → List (Option ℕ) → List ℕ → Bool
some_wan test [] iface_ips = false
some_wan test (none ∷ addrs) iface_ips = some_wan test addrs iface_ips
some_wan test (some ip ∷ addrs) iface_ips =
    (not (contains iface_ips ip) && test ip) || some_wan test addrs iface_ips

-- The kind of a host without regard to the order of its addresses.
abbrev pub kind_of : HostView → NatKind
kind_of h =
    if is_public h.reachability
    then nat_unknown
    else if some_wan in_cgnat_net h.all_addrs h.iface_ips
    then nat_cgnat
    else if some_wan is_private h.all_addrs h.iface_ips
    then nat_double_nat
    else nat_unknown

from_cgnat :
    (addrs : List (Option ℕ)) (ips : List ℕ) → classify_from nat_cgnat addrs ips ≡ nat_cgnat
unfolding classify_from
from_cgnat [] ips = refl
from_cgnat (none ∷ addrs) ips = from_cgnat addrs ips
from_cgnat (some ip ∷ addrs) ips = elim (Bool-cases (contains ips ip)) [
  | inl own ↦ rw own (from_cgnat addrs ips)
  | inr wan ↦ elim (Bool-cases (in_cgnat_net ip)) [
    | inl shared ↦ rw (wan, shared) (from_cgnat addrs ips)
    | inr other ↦ elim (Bool-cases (is_private ip)) [
      | inl private ↦ rw (wan, other, private) (from_cgnat addrs ips)
      | inr public ↦ rw (wan, other, public) (from_cgnat addrs ips)
    ]
  ]
]

from_double :
    (addrs : List (Option ℕ)) (ips : List ℕ)
    → classify_from nat_double_nat addrs ips
      ≡ (if some_wan in_cgnat_net addrs ips then nat_cgnat else nat_double_nat)
unfolding classify_from
from_double [] ips = refl
from_double (none ∷ addrs) ips = from_double addrs ips
from_double (some ip ∷ addrs) ips = elim (Bool-cases (contains ips ip)) [
  | inl own ↦ rw own (from_double addrs ips)
  | inr wan ↦ elim (Bool-cases (in_cgnat_net ip)) [
    | inl shared ↦ rw (wan, shared) (from_cgnat addrs ips)
    | inr other ↦ elim (Bool-cases (is_private ip)) [
      | inl private ↦ rw (wan, other, private) (from_double addrs ips)
      | inr public ↦ rw (wan, other, public) (from_double addrs ips)
    ]
  ]
]

from_unknown :
    (addrs : List (Option ℕ)) (ips : List ℕ)
    → classify_from nat_unknown addrs ips ≡ (
        if some_wan in_cgnat_net addrs ips
        then nat_cgnat
        else if some_wan is_private addrs ips
        then nat_double_nat
        else nat_unknown)
unfolding classify_from
from_unknown [] ips = refl
from_unknown (none ∷ addrs) ips = from_unknown addrs ips
from_unknown (some ip ∷ addrs) ips = elim (Bool-cases (contains ips ip)) [
  | inl own ↦ rw own (from_unknown addrs ips)
  | inr wan ↦ elim (Bool-cases (in_cgnat_net ip)) [
    | inl shared ↦ rw (wan, shared) (from_cgnat addrs ips)
    | inr other ↦ elim (Bool-cases (is_private ip)) [
      | inl private ↦ rw (wan, other, private) (from_double addrs ips)
      | inr public ↦ rw (wan, other, public) (from_unknown addrs ips)
    ]
  ]
]

detect-kind : (h : HostView) → detect_nat_kind h ≡ kind_of h
unfolding classify_nat
detect-kind h = elim (Bool-cases (is_public h.reachability)) [
  | inl open_host ↦ rw open_host refl
  | inr hidden ↦ rw hidden (from_unknown h.all_addrs h.iface_ips)
]

abbrev pub is_cgnat_kind : NatKind → Bool
is_cgnat_kind nat_cgnat = true
is_cgnat_kind nat_unknown = false
is_cgnat_kind nat_double_nat = false

-- A host of that kind comes among these.
abbrev pub some_kind : (NatKind → Bool) → List HostView → Bool
some_kind test [] = false
some_kind test (h ∷ hosts) = test (kind_of h) || some_kind test hosts

abbrev pub is_double_kind : NatKind → Bool
is_double_kind nat_double_nat = true
is_double_kind nat_unknown = false
is_double_kind nat_cgnat = false

-- A double NAT comes before the first carrier-grade NAT.
abbrev pub double_first : List HostView → Bool
double_first [] = false
double_first (h ∷ hosts) =
    let rest = double_first hosts in
    if is_cgnat_kind (kind_of h) then false else is_double_kind (kind_of h) || rest

abbrev pub notice : Bool → NatKind → List NatKind
notice due kind = if due then kind ∷ [] else []

NatKind-cases : (k : NatKind) → (k ≡ nat_unknown) ⊎ ((k ≡ nat_cgnat) ⊎ (k ≡ nat_double_nat))
NatKind-cases nat_unknown = inl refl
NatKind-cases nat_cgnat = inr (inl refl)
NatKind-cases nat_double_nat = inr (inr refl)

after_cgnat : (hosts : List HostView) → monitor nat_cgnat hosts ≡ []
unfolding monitor latch_notice
after_cgnat [] = refl
after_cgnat (h ∷ hosts) = elim (NatKind-cases (detect_nat_kind h)) [
  | inl u ↦ rw (monitor, u) (after_cgnat hosts)
  | inr (inl c) ↦ rw (monitor, c) (after_cgnat hosts)
  | inr (inr d) ↦ rw (monitor, d) (after_cgnat hosts)
]

after_double :
    (hosts : List HostView)
    → monitor nat_double_nat hosts ≡ notice (some_kind is_cgnat_kind hosts) nat_cgnat
unfolding monitor latch_notice
after_double [] = refl
after_double (h ∷ hosts) =
    let kind = detect-kind h in
    elim (NatKind-cases (kind_of h)) [
      | inl u ↦ rw (monitor, kind, u) (after_double hosts)
      | inr (inl c) ↦ rw (monitor, kind, c) (ap (λ rest. nat_cgnat ∷ rest) (after_cgnat hosts))
      | inr (inr d) ↦ rw (monitor, kind, d) (after_double hosts)
    ]

-- Over any checks, MonitorCGNAT gives one notice of a double NAT if a host of that kind comes before
-- the first behind a carrier-grade NAT, then one of a carrier-grade NAT if there is such a host, and
-- no other; the kind of a host does not depend on the order of its addresses.
pub monitor-notices :
    (hosts : List HostView)
    → monitor nat_unknown hosts
      ≡ notice (double_first hosts) nat_double_nat
        ++ notice (some_kind is_cgnat_kind hosts) nat_cgnat
unfolding monitor latch_notice
monitor-notices [] = refl
monitor-notices (h ∷ hosts) =
    let kind = detect-kind h in
    elim (NatKind-cases (kind_of h)) [
      | inl u ↦ rw (monitor, kind, u) (monitor-notices hosts)
      | inr (inl c) ↦ rw (monitor, kind, c) (ap (λ rest. nat_cgnat ∷ rest) (after_cgnat hosts))
      | inr (inr d) ↦
          rw (monitor, kind, d) (ap (λ rest. nat_double_nat ∷ rest) (after_double hosts))
    ]
