-- ===== src/Migrations/ProvideSection.antt =====
-- fs-repo-17-to-18/migration/migration.go: the Provide section from Provider and Reprovider. What
-- is printed is left out.
use kubo.Common.{String, string_eq, Option, none, some, if◌then◌else◌, ◌==◌}
use kubo.Migrations.Tree.{
  JsonValue, json_null, json_bool, json_number, json_text, json_list, json_object, JsonFields,
  no_fields, field, look_up, remove, assign, safe_cast_map,
}

-- to[name] = value, if the field exists
abbrev pub carry : Option JsonValue → String → JsonFields → JsonFields
carry none name to = to
carry (some value) name to = assign to name value

-- The strategy from Reprovider.Strategy.
abbrev pub migrated_strategy : JsonValue → JsonValue
migrated_strategy (json_text t) = if t == "flat" then json_text "all" else json_text t
migrated_strategy json_null = json_text "all"
migrated_strategy (json_bool b) = json_text "all"
migrated_strategy (json_number n) = json_text "all"
migrated_strategy (json_list items) = json_text "all"
migrated_strategy (json_object members) = json_text "all"

abbrev pub carry_strategy : Option JsonValue → JsonFields → JsonFields
carry_strategy none to = to
carry_strategy (some value) to = assign to "Strategy" (migrated_strategy value)

-- to[name] = section, if it has a field
abbrev pub carry_section : JsonFields → String → JsonFields → JsonFields
carry_section no_fields name to = to
carry_section (field key value members) name to =
    assign to name (json_object (field key value members))

unfoldable pub dht_section : JsonFields → JsonFields
dht_section conf_map =
    let provider = safe_cast_map (look_up conf_map "Provider") in
    let reprovider = safe_cast_map (look_up conf_map "Reprovider") in
    carry (look_up reprovider "Interval") "Interval"
      (carry (look_up provider "WorkerCount") "MaxWorkers" no_fields)

unfoldable pub provide_section : JsonFields → JsonFields
provide_section conf_map =
    let provider = safe_cast_map (look_up conf_map "Provider") in
    let reprovider = safe_cast_map (look_up conf_map "Reprovider") in
    carry_section (dht_section conf_map) "DHT" (
      carry_strategy (look_up reprovider "Strategy")
        (carry (look_up provider "Enabled") "Enabled" no_fields))

-- convert, between the reading and the writing of the config
unfoldable pub convert_17 : JsonFields → JsonFields
convert_17 conf_map =
    remove (remove (carry_section (provide_section conf_map) "Provide" conf_map) "Provider")
      "Reprovider"
