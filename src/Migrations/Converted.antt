-- ===== src/Migrations/Converted.antt =====
-- What the conversions of the config make of its sections.
use kubo.Common.{
  String, string_eq, false, ◌≡◌, refl, sym, ◌∙◌, Option, none, some, [], ◌∷◌, if◌then◌else◌, ◌==◌,
  Bool-cases, inl, inr, ==→≡, ==-self, contains, arith,
}
use kubo.Migrations.Tree.{
  JsonValue, json_object, JsonFields, no_fields, field, look_up, remove, assign, safe_cast_map,
  get_field,
}
use kubo.Migrations.ProvideSection.{
  carry, migrated_strategy, carry_strategy, carry_section, dht_section, provide_section, convert_17,
}

look_up-remove :
    (m : JsonFields) (k j : String)
    → look_up (remove m k) j ≡ (if k == j then none else look_up m j)
look_up-remove no_fields k j = ground arith
look_up-remove (field i v m) k j = elim (Bool-cases (i == k)) [
  | inl same ↦ rw (same, look_up-remove m k j, ==→≡ i k same) (ground arith)
  | inr other ↦ elim (Bool-cases (i == j)) [
    | inl here ↦
        rw (other, here, sym (==→≡ i j here))
          (elim (Bool-cases (k == i)) [
            | inl back ↦ let self = ==-self i in let apart = rw (==→≡ k i back) at other in cc
            | inr apart ↦ rw apart refl
          ])
    | inr there ↦ rw (other, there) (look_up-remove m k j)
  ]
]

pub look_up-assign :
    (m : JsonFields) (k j : String) (v : JsonValue)
    → look_up (assign m k v) j ≡ (if k == j then some v else look_up m j)
look_up-assign m k j v = elim (Bool-cases (k == j)) [
  | inl same ↦ rw same refl
  | inr other ↦ rw other (look_up-remove m k j ∙ rw other refl)
]

abbrev built :
    Option JsonValue → Option JsonValue → Option JsonValue → Option JsonValue → JsonFields
built enabled strategy workers interval =
    carry_section (carry interval "Interval" (carry workers "MaxWorkers" no_fields)) "DHT"
      (carry_strategy strategy (carry enabled "Enabled" no_fields))

abbrev pub map_strategy : Option JsonValue → Option JsonValue
map_strategy none = none
map_strategy (some value) = some (migrated_strategy value)

abbrev HasFields :
    JsonFields → Option JsonValue → Option JsonValue → Option JsonValue → Option JsonValue → Type 0
HasFields provide enabled strategy workers interval =
    (look_up provide "Enabled" ≡ enabled)
    × (look_up provide "Strategy" ≡ map_strategy strategy)
    × (look_up (safe_cast_map (look_up provide "DHT")) "MaxWorkers" ≡ workers)
    × (look_up (safe_cast_map (look_up provide "DHT")) "Interval" ≡ interval)

built-HasFields : (a b c d : Option JsonValue) → HasFields (built a b c d) a b c d
built-HasFields none none none none = (refl, refl, refl, refl)
built-HasFields none none none (some d) = (refl, refl, refl, refl)
built-HasFields none none (some c) none = (refl, refl, refl, refl)
built-HasFields none none (some c) (some d) = (refl, refl, refl, refl)
built-HasFields none (some b) none none = (refl, refl, refl, refl)
built-HasFields none (some b) none (some d) = (refl, refl, refl, refl)
built-HasFields none (some b) (some c) none = (refl, refl, refl, refl)
built-HasFields none (some b) (some c) (some d) = (refl, refl, refl, refl)
built-HasFields (some a) none none none = (refl, refl, refl, refl)
built-HasFields (some a) none none (some d) = (refl, refl, refl, refl)
built-HasFields (some a) none (some c) none = (refl, refl, refl, refl)
built-HasFields (some a) none (some c) (some d) = (refl, refl, refl, refl)
built-HasFields (some a) (some b) none none = (refl, refl, refl, refl)
built-HasFields (some a) (some b) none (some d) = (refl, refl, refl, refl)
built-HasFields (some a) (some b) (some c) none = (refl, refl, refl, refl)
built-HasFields (some a) (some b) (some c) (some d) = (refl, refl, refl, refl)

-- A section that is carried is found again, also if it has no field and none was there.
carried_section :
    (m conf : JsonFields) (name : String)
    → look_up conf name ≡ none
    → safe_cast_map (look_up (carry_section m name conf) name) ≡ m
carried_section no_fields conf name absent = rw absent refl
carried_section (field k v m) conf name absent =
    rw (look_up-assign conf name name (json_object (field k v m)), ==-self name) refl

carry_section-other :
    (m conf : JsonFields) (name j : String)
    → (name == j) ≡ false
    → look_up (carry_section m name conf) j ≡ look_up conf j
carry_section-other no_fields conf name j other = refl
carry_section-other (field k v m) conf name j other =
    look_up-assign conf name j (json_object (field k v m)) ∙ rw other refl

-- What is found under Provide, Provider and Reprovider after 17-to-18, and under the other names.
convert_17-look_up :
    (conf : JsonFields) (j : String)
    → look_up (convert_17 conf) j ≡ (
        if "Reprovider" == j
        then none
        else if "Provider" == j
        then none
        else look_up (carry_section (provide_section conf) "Provide" conf) j)
unfolding convert_17
convert_17-look_up conf j =
    let carried = carry_section (provide_section conf) "Provide" conf in
    look_up-remove (remove carried "Provider") "Reprovider" j
    ∙ elim (Bool-cases ("Reprovider" == j)) [
      | inl same ↦ rw same refl
      | inr other ↦ rw other (look_up-remove carried "Provider" j)
    ]

-- For a config without a Provide section, 17-to-18 moves Provider.Enabled, Provider.WorkerCount and
-- Reprovider.Interval to Provide.Enabled, Provide.DHT.MaxWorkers and Provide.DHT.Interval, a
-- Reprovider.Strategy as the migrated strategy to Provide.Strategy, missing fields staying missing;
-- it removes Provider and Reprovider, and leaves the other sections as they were.
pub convert_17-moves :
    (conf : JsonFields)
    → look_up conf "Provide" ≡ none
    → (get_field (convert_17 conf) ("Provide" ∷ "Enabled" ∷ [])
        ≡ get_field conf ("Provider" ∷ "Enabled" ∷ []))
      × (get_field (convert_17 conf) ("Provide" ∷ "Strategy" ∷ [])
          ≡ map_strategy (get_field conf ("Reprovider" ∷ "Strategy" ∷ [])))
      × (get_field (convert_17 conf) ("Provide" ∷ "DHT" ∷ "MaxWorkers" ∷ [])
          ≡ get_field conf ("Provider" ∷ "WorkerCount" ∷ []))
      × (get_field (convert_17 conf) ("Provide" ∷ "DHT" ∷ "Interval" ∷ [])
          ≡ get_field conf ("Reprovider" ∷ "Interval" ∷ []))
      × ((j : String)
          → contains ("Provide" ∷ "Provider" ∷ "Reprovider" ∷ []) j ≡ false
          → look_up (convert_17 conf) j ≡ look_up conf j)
      × (look_up (convert_17 conf) "Provider" ≡ none)
      × (look_up (convert_17 conf) "Reprovider" ≡ none)
unfolding get_field provide_section dht_section
convert_17-moves conf absent =
    let provider = safe_cast_map (look_up conf "Provider") in
    let reprovider = safe_cast_map (look_up conf "Reprovider") in
    let (enabled, strategy, workers, interval) =
      built-HasFields (look_up provider "Enabled") (look_up reprovider "Strategy")
        (look_up provider "WorkerCount") (look_up reprovider "Interval") in
    let section : safe_cast_map (look_up (convert_17 conf) "Provide") ≡ provide_section conf =
      rw (convert_17-look_up conf "Provide")
        (carried_section (provide_section conf) conf "Provide" absent) in
    (
      rw section enabled,
      rw section strategy,
      rw section workers,
      rw section interval,
      (λ j apart.
          let p1 : ("Provide" == j) ≡ false = ground arith in
          let p2 : ("Provider" == j) ≡ false = ground arith in
          let p3 : ("Reprovider" == j) ≡ false = ground arith in
          convert_17-look_up conf j
          ∙ rw (p3, p2) (carry_section-other (provide_section conf) conf "Provide" j p1)),
      convert_17-look_up conf "Provider",
      convert_17-look_up conf "Reprovider",
    )
