-- ===== src/Migrations/Bootstrapped.antt =====
-- What 16-to-17 makes of a config: the bootstrap peers, and the sections that it leaves alone.
use kubo.Common.{
  ◌≤◌, String, string_eq, Bool, false, not, ◌≡◌, refl, ◌∙◌, Option, none, some, List, [], ◌∷◌, ◌==◌,
  is_some, Bool-cases, inl, inr, contains, contains-keep, keep, length, ltb, arith, ap, ◌&&◌,
}
use kubo.Migrations.Tree.{
  JsonValue, json_list, json_object, JsonFields, no_fields, look_up, safe_cast_map, safe_cast_slice,
  get_field, set_field, set_default, change_section, convert_interface_slice, texts_of,
}
use kubo.Migrations.AutoConf.{
  auto_placeholder, default_bootstrap_addresses, process_bootstrap_peers, is_null, new_bootstrap,
  enable_auto_conf, migrate_bootstrap, migrate_dns_resolvers, migrate_delegated_routers,
  migrate_delegated_publishers, convert_16,
}
use kubo.Migrations.Converted.{look_up-assign}

length-keep : (p : String → Bool) (xs : List String) → length (keep p xs) ≤ length xs
length-keep p [] = omega arith
length-keep p (x ∷ xs) = ground (arith, length-keep p xs)

-- A filter that drops nothing.
keep-all :
    (p : String → Bool) (xs : List String) (a : String)
    → ltb (length (keep p xs)) (length xs) ≡ false
    → contains xs a ≡ contains (keep p xs) a
keep-all p [] a same = refl
keep-all p (x ∷ xs) a same = elim (Bool-cases (p x)) [
  | inl stays ↦
      let same' = rw stays at same in
      rw stays (let rest = keep-all p xs a (ground arith) in ground arith)
  | inr dropped ↦
      let same' = rw dropped at same in let short = length-keep p xs in absurd (ground arith)
]

abbrev is_default : String → Bool
is_default peer = contains default_bootstrap_addresses peer

-- The peers among those that are processed: the custom ones, and auto.
process-custom :
    (peers : List String) (p : String)
    → (auto_placeholder == p) ≡ false
    → contains (process_bootstrap_peers peers) p ≡ (contains peers p && not (is_default p))
unfolding process_bootstrap_peers
process-custom [] p apart = rw apart refl
process-custom (x ∷ xs) p apart =
    let custom = λ (q : String). not (is_default q) in
    elim (Bool-cases (ltb (length (keep custom (x ∷ xs))) (length (x ∷ xs)))) [
      | inl some_default ↦
          rw (process_bootstrap_peers, some_default, apart) (contains-keep custom (x ∷ xs) p)
      | inr no_default ↦
          rw (process_bootstrap_peers, no_default)
            (keep-all custom (x ∷ xs) p no_default ∙ contains-keep custom (x ∷ xs) p)
    ]

-- The texts of a list.
abbrev pub peers_of : Option JsonValue → List String
peers_of value = convert_interface_slice (safe_cast_slice value)

slice-texts : (ts : List String) → convert_interface_slice (texts_of ts) ≡ ts
slice-texts [] = refl
slice-texts (t ∷ ts) = ap (λ rest. t ∷ rest) (slice-texts ts)

empty-contains : (ts : List String) (p : String) → ltb 0 (length ts) ≡ false → contains ts p ≡ false
empty-contains [] p empty = refl
empty-contains (t ∷ ts) p empty = absurd (ground arith)

new_bootstrap-custom :
    (bootstrap : Option JsonValue) (p : String)
    → (auto_placeholder == p) ≡ false
    → contains (new_bootstrap bootstrap) p ≡ (contains (peers_of bootstrap) p && not (is_default p))
unfolding new_bootstrap
new_bootstrap-custom none p apart = rw apart refl
new_bootstrap-custom (some value) p apart =
    let processed = process-custom (peers_of (some value)) p apart in
    elim (Bool-cases (ltb 0 (length (peers_of (some value))))) [
      | inl any ↦ rw (new_bootstrap, any) processed
      | inr empty ↦ elim (Bool-cases (is_null value)) [
        | inl null ↦ rw (new_bootstrap, empty, null) processed
        | inr given ↦
            let no_peer : contains (peers_of (some value)) p ≡ false =
              empty-contains (peers_of (some value)) p empty in
            rw (new_bootstrap, empty, given, apart, no_peer) refl
      ]
    ]

set_default-other :
    (m : JsonFields) (k j : String) (v : JsonValue)
    → (k == j) ≡ false
    → look_up (set_default m (k ∷ []) v) j ≡ look_up m j
unfolding set_default set_field get_field
set_default-other m k j v other = elim (Bool-cases (is_some (look_up m k))) [
  | inl there ↦ rw (set_default, get_field, there) refl
  | inr missing ↦ rw (set_default, get_field, missing) (look_up-assign m k j v ∙ rw other refl)
]

change_section-other :
    (m : JsonFields) (k j : String) (change : JsonFields → JsonFields)
    → (k == j) ≡ false
    → look_up (change_section m (k ∷ []) change) j ≡ look_up m j
unfolding change_section set_field get_field
change_section-other m k j change other =
    look_up-assign m k j (json_object (change (safe_cast_map (look_up m k)))) ∙ rw other refl

auto_conf-other :
    (m : JsonFields) (j : String)
    → ("AutoConf" == j) ≡ false
    → look_up (enable_auto_conf m) j ≡ look_up m j
unfolding enable_auto_conf
auto_conf-other m j other = set_default-other m "AutoConf" j (json_object no_fields) other

bootstrap-other :
    (m : JsonFields) (j : String)
    → ("Bootstrap" == j) ≡ false
    → look_up (migrate_bootstrap m) j ≡ look_up m j
unfolding migrate_bootstrap
bootstrap-other m j other =
    look_up-assign m "Bootstrap" j (json_list (texts_of (new_bootstrap (look_up m "Bootstrap"))))
    ∙ rw other refl

dns-other :
    (m : JsonFields) (j : String)
    → ("DNS" == j) ≡ false
    → look_up (migrate_dns_resolvers m) j ≡ look_up m j
unfolding migrate_dns_resolvers
dns-other m j other = change_section-other m "DNS" j _ other

routers-other :
    (m : JsonFields) (j : String)
    → ("Routing" == j) ≡ false
    → look_up (migrate_delegated_routers m) j ≡ look_up m j
unfolding migrate_delegated_routers
routers-other m j other = change_section-other m "Routing" j _ other

publishers-other :
    (m : JsonFields) (j : String)
    → ("Ipns" == j) ≡ false
    → look_up (migrate_delegated_publishers m) j ≡ look_up m j
unfolding migrate_delegated_publishers
publishers-other m j other = change_section-other m "Ipns" j _ other

-- Of the bootstrap peers other than auto, 16-to-17 keeps exactly those that are no default
-- addresses, and it leaves all but the sections AutoConf, Bootstrap, DNS, Routing and Ipns as they
-- were.
pub convert_16-bootstrap :
    (conf : JsonFields)
    → ((p : String)
        → (auto_placeholder == p) ≡ false
        → contains (peers_of (look_up (convert_16 conf) "Bootstrap")) p ≡ (
            contains (peers_of (look_up conf "Bootstrap")) p
            && not (contains default_bootstrap_addresses p)))
      × ((j : String)
          → contains ("AutoConf" ∷ "Bootstrap" ∷ "DNS" ∷ "Routing" ∷ "Ipns" ∷ []) j ≡ false
          → look_up (convert_16 conf) j ≡ look_up conf j)
unfolding convert_16 migrate_bootstrap
convert_16-bootstrap conf =
    let step1 = enable_auto_conf conf in
    let step2 = migrate_bootstrap step1 in
    let step3 = migrate_dns_resolvers step2 in
    let step4 = migrate_delegated_routers step3 in
    let old = look_up conf "Bootstrap" in
    let found : look_up (convert_16 conf) "Bootstrap"
        ≡ some (json_list (texts_of (new_bootstrap old))) =
      publishers-other step4 "Bootstrap" refl
      ∙ (routers-other step3 "Bootstrap" refl
          ∙ (dns-other step2 "Bootstrap" refl
              ∙ ap (λ b. some (json_list (texts_of (new_bootstrap b))))
                  (auto_conf-other conf "Bootstrap" refl))) in
    (
      (λ p apart. rw (found, slice-texts (new_bootstrap old)) (new_bootstrap-custom old p apart)),
      λ j apart.
          let p1 : ("AutoConf" == j) ≡ false = ground arith in
          let p2 : ("Bootstrap" == j) ≡ false = ground arith in
          let p3 : ("DNS" == j) ≡ false = ground arith in
          let p4 : ("Routing" == j) ≡ false = ground arith in
          let p5 : ("Ipns" == j) ≡ false = ground arith in
          publishers-other step4 j p5
          ∙ (routers-other step3 j p4
              ∙ (dns-other step2 j p3 ∙ (bootstrap-other step1 j p2 ∙ auto_conf-other conf j p1))),
    )
