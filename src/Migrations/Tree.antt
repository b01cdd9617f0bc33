-- ===== src/Migrations/Tree.antt =====
-- common/config_helpers.go: a config as a tree of JSON, and the fields behind its paths. A path is
-- the list of the parts that strings.Split makes of it. A map of Go is changed in place; no two
-- fields of a config share a map, so that a changed tree stands for it.
use kubo.Common.{
  String, string_eq, Bool, true, false, Option, none, some, List, [], ◌∷◌, if◌then◌else◌, ◌==◌,
  is_some,
}

mutual
  pub data JsonValue : Type 0 where
    json_null : JsonValue
    json_bool : Bool → JsonValue
    json_number json_text : String → JsonValue
    json_list : JsonItems → JsonValue
    json_object : JsonFields → JsonValue

  pub data JsonItems : Type 0 where
    no_items : JsonItems
    item : JsonValue → JsonItems → JsonItems

  pub data JsonFields : Type 0 where
    no_fields : JsonFields
    field : String → JsonValue → JsonFields → JsonFields

-- m[part]
abbrev pub look_up : JsonFields → String → Option JsonValue
look_up no_fields part = none
look_up (field key value members) part = if key == part then some value else look_up members part

-- delete(m, part)
abbrev pub remove : JsonFields → String → JsonFields
remove no_fields part = no_fields
remove (field key value members) part =
    let rest = remove members part in if key == part then rest else field key value rest

-- m[part] = value
abbrev pub assign : JsonFields → String → JsonValue → JsonFields
assign members part value = field part value (remove members part)

-- SafeCastMap
abbrev pub safe_cast_map : Option JsonValue → JsonFields
safe_cast_map none = no_fields
safe_cast_map (some (json_object members)) = members
safe_cast_map (some json_null) = no_fields
safe_cast_map (some (json_bool b)) = no_fields
safe_cast_map (some (json_number n)) = no_fields
safe_cast_map (some (json_text t)) = no_fields
safe_cast_map (some (json_list items)) = no_fields

-- SafeCastSlice
abbrev pub safe_cast_slice : Option JsonValue → JsonItems
safe_cast_slice none = no_items
safe_cast_slice (some (json_list items)) = items
safe_cast_slice (some json_null) = no_items
safe_cast_slice (some (json_bool b)) = no_items
safe_cast_slice (some (json_number n)) = no_items
safe_cast_slice (some (json_text t)) = no_items
safe_cast_slice (some (json_object members)) = no_items

-- GetField. What is not a map has no fields, like an empty map.
unfoldable pub get_field : JsonFields → List String → Option JsonValue
get_field config [] = none
get_field config (part ∷ []) = look_up config part
get_field config (part ∷ next ∷ parts) =
    get_field (safe_cast_map (look_up config part)) (next ∷ parts)

-- SetField. What is not a map is replaced with a new one.
unfoldable pub set_field : JsonFields → List String → JsonValue → JsonFields
set_field config [] value = config
set_field config (part ∷ []) value = assign config part value
set_field config (part ∷ next ∷ parts) value =
    let inner = set_field (safe_cast_map (look_up config part)) (next ∷ parts) value in
    assign config part (json_object inner)

-- SetDefault
unfoldable pub set_default : JsonFields → List String → JsonValue → JsonFields
set_default config path value =
    if is_some (get_field config path) then config else set_field config path value

-- GetOrCreateSection, with the assignments of its caller to the section.
unfoldable pub change_section : JsonFields → List String → (JsonFields → JsonFields) → JsonFields
change_section config path change =
    set_field config path (json_object (change (safe_cast_map (get_field config path))))

-- ConvertInterfaceSlice
abbrev pub convert_interface_slice : JsonItems → List String
convert_interface_slice no_items = []
convert_interface_slice (item (json_text t) items) = t ∷ convert_interface_slice items
convert_interface_slice (item json_null items) = convert_interface_slice items
convert_interface_slice (item (json_bool b) items) = convert_interface_slice items
convert_interface_slice (item (json_number n) items) = convert_interface_slice items
convert_interface_slice (item (json_list xs) items) = convert_interface_slice items
convert_interface_slice (item (json_object fs) items) = convert_interface_slice items

-- a []string
abbrev pub texts_of : List String → JsonItems
texts_of [] = no_items
texts_of (t ∷ ts) = item (json_text t) (texts_of ts)

-- IsEmptySlice, of a field: a missing one is nil
abbrev pub is_empty_slice : Option JsonValue → Bool
is_empty_slice none = true
is_empty_slice (some json_null) = true
is_empty_slice (some (json_list no_items)) = true
is_empty_slice (some (json_list (item x items))) = false
is_empty_slice (some (json_bool b)) = false
is_empty_slice (some (json_number n)) = false
is_empty_slice (some (json_text t)) = false
is_empty_slice (some (json_object members)) = false
