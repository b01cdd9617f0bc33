-- ===== src/Migrations/ConvertedExamples.antt =====
-- Configs before and after the conversions.
use kubo.Common.{
  String, string_eq, false, not, ◌&&◌, ◌==◌, ◌≡◌, refl, none, some, [], ◌∷◌, contains,
}
use kubo.Migrations.Tree.{
  json_number, json_text, json_list, json_object, JsonFields, no_fields, field, no_items, item,
  look_up, get_field, set_field, set_default, change_section, texts_of,
}
use kubo.Migrations.ProvideSection.{convert_17}
use kubo.Migrations.AutoConf.{
  auto_placeholder, default_bootstrap_addresses, new_bootstrap, process_bootstrap_peers,
  enable_auto_conf, migrate_bootstrap, replace_cid_contact, replace_defaults_with_auto,
  migrate_dns_resolvers, migrate_delegated_routers, migrate_delegated_publishers, convert_16,
}
use kubo.Migrations.Converted.{convert_17-moves}
use kubo.Migrations.Bootstrapped.{peers_of, convert_16-bootstrap}

abbrev custom : String
custom = "/ip4/10.0.0.1/tcp/4001/p2p/QmCustom"

abbrev old_conf : JsonFields
old_conf =
    field "Bootstrap"
      (json_list (
        item
          (json_text
            "/ip4/104.131.131.82/tcp/4001/p2p/QmaCpDMGvV2BGHeYERUEnRQAwe3N8SzbUtfsmvsqQLuvuJ")
          (item (json_text custom) no_items)))
      (field "Routing"
        (json_object (
          field "DelegatedRouters" (json_list (item (json_text "https://cid.contact") no_items))
            no_fields))
        (field "Provider" (json_object (field "WorkerCount" (json_number "8") no_fields)) (
          field "Reprovider" (json_object (field "Strategy" (json_text "flat") no_fields))
            no_fields)))

bootstrap_converted :
    look_up (convert_16 old_conf) "Bootstrap" ≡ some (json_list (texts_of ("auto" ∷ custom ∷ [])))
unfolding convert_16 migrate_delegated_publishers migrate_delegated_routers migrate_dns_resolvers
    migrate_bootstrap enable_auto_conf set_default set_field get_field change_section new_bootstrap
    process_bootstrap_peers replace_cid_contact replace_defaults_with_auto
bootstrap_converted = refl

routers_converted :
    get_field (convert_16 old_conf) ("Routing" ∷ "DelegatedRouters" ∷ [])
    ≡ some (json_list (texts_of ("auto" ∷ [])))
unfolding convert_16 migrate_delegated_publishers migrate_delegated_routers migrate_dns_resolvers
    migrate_bootstrap enable_auto_conf set_default set_field get_field change_section new_bootstrap
    process_bootstrap_peers replace_cid_contact replace_defaults_with_auto
routers_converted = refl

convert_16-bootstrap_example :
    ((p : String)
      → (auto_placeholder == p) ≡ false
      → contains (peers_of (look_up (convert_16 old_conf) "Bootstrap")) p ≡ (
          contains (peers_of (look_up old_conf "Bootstrap")) p
          && not (contains default_bootstrap_addresses p)))
    × ((j : String)
        → contains ("AutoConf" ∷ "Bootstrap" ∷ "DNS" ∷ "Routing" ∷ "Ipns" ∷ []) j ≡ false
        → look_up (convert_16 old_conf) j ≡ look_up old_conf j)
convert_16-bootstrap_example = convert_16-bootstrap old_conf

convert_17-moves_example :
    (get_field (convert_17 old_conf) ("Provide" ∷ "Enabled" ∷ []) ≡ none)
    × (get_field (convert_17 old_conf) ("Provide" ∷ "Strategy" ∷ []) ≡ some (json_text "all"))
    × (get_field (convert_17 old_conf) ("Provide" ∷ "DHT" ∷ "MaxWorkers" ∷ [])
        ≡ some (json_number "8"))
    × (get_field (convert_17 old_conf) ("Provide" ∷ "DHT" ∷ "Interval" ∷ []) ≡ none)
    × ((j : String)
        → contains ("Provide" ∷ "Provider" ∷ "Reprovider" ∷ []) j ≡ false
        → look_up (convert_17 old_conf) j ≡ look_up old_conf j)
    × (look_up (convert_17 old_conf) "Provider" ≡ none)
    × (look_up (convert_17 old_conf) "Reprovider" ≡ none)
unfolding get_field
convert_17-moves_example = convert_17-moves old_conf refl
