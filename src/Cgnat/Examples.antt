-- ===== src/Cgnat/Examples.antt =====
-- A host whose address behind a carrier-grade NAT shows after one behind a double NAT.
use kubo.Common.{◌≡◌, refl, none, some, [], ◌∷◌}
use kubo.Cgnat.Detect.{
  nat_unknown, nat_cgnat, nat_double_nat, unknown_reachability, public_reachability, HostView,
  classify_from, classify_nat, latch_notice, monitor,
}
use kubo.Cgnat.Notices.{monitor-notices}

-- 192.168.1.5 on an interface, then 192.168.0.2 and 100.64.0.1 as mapped addresses
abbrev host : HostView
host = record {
  all_addrs = some 3232235781 ∷ none ∷ some 3232235522 ∷ [];
  iface_ips = 3232235781 ∷ [];
  reachability = unknown_reachability;
}

abbrev mapped : HostView
mapped = record host { all_addrs = some 3232235522 ∷ some 1681915905 ∷ [] }

two_notices :
    monitor nat_unknown (host ∷ mapped ∷ host ∷ mapped ∷ []) ≡ nat_double_nat ∷ nat_cgnat ∷ []
unfolding monitor classify_nat classify_from latch_notice
two_notices = refl

public_host : monitor nat_unknown (record mapped { reachability = public_reachability } ∷ []) ≡ []
unfolding monitor classify_nat latch_notice
public_host = refl

monitor-notices_example :
    monitor nat_unknown (host ∷ mapped ∷ host ∷ []) ≡ nat_double_nat ∷ nat_cgnat ∷ []
monitor-notices_example = monitor-notices (host ∷ mapped ∷ host ∷ [])
