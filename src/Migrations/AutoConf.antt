-- ===== src/Migrations/AutoConf.antt =====
-- fs-repo-16-to-17/migration/migration.go: the sections that take the value auto. A config is read
-- from JSON, so that no slice in it is a []string before it is written.
use kubo.Common.{
  String, string_eq, Bool, true, false, not, Option, none, some, List, [], ◌∷◌, if◌then◌else◌, ◌==◌,
  is_some, contains, keep, length, ltb, Map, get,
}
use kubo.Migrations.Tree.{
  JsonValue, json_null, json_bool, json_number, json_text, json_list, json_object, JsonFields,
  no_fields, field, look_up, assign, safe_cast_map, safe_cast_slice, set_default, change_section,
  convert_interface_slice, texts_of, is_empty_slice,
}

abbrev pub auto_placeholder : String
auto_placeholder = "auto"

abbrev pub default_bootstrap_addresses : List String
default_bootstrap_addresses =
    "/dnsaddr/bootstrap.libp2p.io/p2p/QmNnooDu7bfjPFoTZYxMNLWUQJyrVwtbZg5gBMjTezGAJN"
    ∷ "/dnsaddr/bootstrap.libp2p.io/p2p/QmQCU2EcMqAqQPR2i9bChDtGNJchTbq5TbXJJ16u19uLTa"
    ∷ "/dnsaddr/bootstrap.libp2p.io/p2p/QmbLHAnMoJPWSCR5Zhtx6BHJX9KiKNN6tpvbUcqanj75Nb"
    ∷ "/dnsaddr/bootstrap.libp2p.io/p2p/QmcZf59bWwK5XFi76CZX8cbJ4BhTzzA3gU1ZjYZcYW3dwt"
    ∷ "/dnsaddr/va1.bootstrap.libp2p.io/p2p/12D3KooWKnDdG3iXw9eTFijk3EWSunZcFi54Zka4wmtqtt6rPxc8"
    ∷ "/ip4/104.131.131.82/tcp/4001/p2p/QmaCpDMGvV2BGHeYERUEnRQAwe3N8SzbUtfsmvsqQLuvuJ"
    ∷ "/ip4/104.131.131.82/udp/4001/quic-v1/p2p/QmaCpDMGvV2BGHeYERUEnRQAwe3N8SzbUtfsmvsqQLuvuJ" ∷ []

unfoldable pub enable_auto_conf : JsonFields → JsonFields
enable_auto_conf conf_map = set_default conf_map ("AutoConf" ∷ []) (json_object no_fields)

unfoldable pub process_bootstrap_peers : List String → List String
process_bootstrap_peers [] = auto_placeholder ∷ []
process_bootstrap_peers (peer ∷ peers) =
    let all = peer ∷ peers in
    let custom_peers = keep (λ p. not (contains default_bootstrap_addresses p)) all in
    if ltb (length custom_peers) (length all) then auto_placeholder ∷ custom_peers else all

abbrev pub is_null : JsonValue → Bool
is_null json_null = true
is_null (json_bool b) = false
is_null (json_number n) = false
is_null (json_text t) = false
is_null (json_list items) = false
is_null (json_object members) = false

-- the new value of Bootstrap
unfoldable pub new_bootstrap : Option JsonValue → List String
new_bootstrap none = auto_placeholder ∷ []
new_bootstrap (some bootstrap) =
    let peers = convert_interface_slice (safe_cast_slice (some bootstrap)) in
    if ltb 0 (length peers)
    then process_bootstrap_peers peers
    else if is_null bootstrap
    then process_bootstrap_peers peers
    else auto_placeholder ∷ []

unfoldable pub migrate_bootstrap : JsonFields → JsonFields
migrate_bootstrap conf_map =
    assign conf_map "Bootstrap"
      (json_list (texts_of (new_bootstrap (look_up conf_map "Bootstrap"))))

abbrev pub default_resolvers : Map String String
default_resolvers =
    ("https://dns.eth.limo/dns-query", auto_placeholder)
    ∷ ("https://dns.eth.link/dns-query", auto_placeholder)
    ∷ ("https://resolver.cloudflare-eth.com/dns-query", auto_placeholder)
    ∷ []

-- The value of one resolver, if it is a text.
abbrev pub replaced : Map String String → JsonValue → Option String
replaced defaults (json_text v) = elim (get defaults v) [
  | none ↦ some v
  | some replacement ↦ some replacement
]
replaced defaults json_null = none
replaced defaults (json_bool b) = none
replaced defaults (json_number n) = none
replaced defaults (json_list items) = none
replaced defaults (json_object members) = none

-- ReplaceDefaultsWithAuto
unfoldable pub replace_defaults_with_auto : JsonFields → Map String String → JsonFields
replace_defaults_with_auto no_fields defaults = no_fields
replace_defaults_with_auto (field k v values) defaults =
    let rest = replace_defaults_with_auto values defaults in
    elim (replaced defaults v) [ none ↦ rest | some t ↦ field k (json_text t) rest ]

unfoldable pub migrate_dns_resolvers : JsonFields → JsonFields
migrate_dns_resolvers conf_map = change_section conf_map ("DNS" ∷ []) (λ dns.
    let resolvers =
      replace_defaults_with_auto (safe_cast_map (look_up dns "Resolvers")) default_resolvers in
    assign dns "Resolvers" (
      json_object (
        if is_some (look_up resolvers ".")
        then resolvers
        else assign resolvers "." (json_text auto_placeholder))))

-- The loop over the routers, after an `auto` or before.
unfoldable pub replace_cid_contact : Bool → List String → List String
replace_cid_contact has_auto [] = []
replace_cid_contact has_auto (router ∷ routers) =
    let first = replace_cid_contact true routers in
    let rest = replace_cid_contact has_auto routers in
    if router == "https://cid.contact"
    then (if has_auto then rest else auto_placeholder ∷ first)
    else router ∷ rest

abbrev pub or_auto : List String → List String
or_auto [] = auto_placeholder ∷ []
or_auto (router ∷ routers) = router ∷ routers

unfoldable pub migrate_delegated_routers : JsonFields → JsonFields
migrate_delegated_routers conf_map = change_section conf_map ("Routing" ∷ []) (λ routing.
    let delegated = look_up routing "DelegatedRouters" in
    let routers = convert_interface_slice (safe_cast_slice delegated) in
    assign routing "DelegatedRouters" (
      json_list (
        texts_of (
          if is_empty_slice delegated
          then auto_placeholder ∷ []
          else or_auto (replace_cid_contact false routers)))))

unfoldable pub migrate_delegated_publishers : JsonFields → JsonFields
migrate_delegated_publishers conf_map = change_section conf_map ("Ipns" ∷ []) (λ ipns.
    if is_empty_slice (look_up ipns "DelegatedPublishers")
    then assign ipns "DelegatedPublishers" (json_list (texts_of (auto_placeholder ∷ [])))
    else ipns)

-- convert, between the reading and the writing of the config
unfoldable pub convert_16 : JsonFields → JsonFields
convert_16 conf_map = migrate_delegated_publishers (
    migrate_delegated_routers
      (migrate_dns_resolvers (migrate_bootstrap (enable_auto_conf conf_map))))
