-- ===== src/Routing/Methods.antt =====
-- Methods.Check of config/routing.go accepts exactly the maps from the five method names.
use kubo.Common.{
  ◌≡◌, ◌↔◌, refl, sym, String, string_eq, Bool, true, false, List, [], ◌∷◌, ok, ◌==◌, get, is_some,
  arith, Bool-cases, Result-cases, inl, inr, ==→≡, ==-self,
}
use kubo.Routing.Config.{
  MethodName, method_text, Methods, method_name_list, check_missing, is_supported,
  check_unsupported, check,
}

check_missing-supported :
    (names : List MethodName) (m : Methods) (name : String)
    → check_missing names m ≡ ok tt
    → is_supported names name ≡ true
    → is_some (get m name) ≡ true
unfolding check_missing
check_missing-supported [] m name passed listed = cc
check_missing-supported (mn ∷ names) m name passed listed =
    elim (Bool-cases (is_some (get m (method_text mn)))) [
      | inl here ↦ elim (Bool-cases (method_text mn == name)) [
        | inl same ↦ rw (sym (==→≡ (method_text mn) name same)) here
        | inr other ↦
            check_missing-supported names m name (rw (here, check_missing) at passed)
              (rw other at listed)
      ]
      | inr missing ↦ let bad = rw (missing, check_missing) at passed in cc
    ]

all_present :
    (names : List MethodName) (m : Methods)
    → ((name : String) → is_supported names name ≡ true → is_some (get m name) ≡ true)
    → check_missing names m ≡ ok tt
unfolding check_missing
all_present [] m present = refl
all_present (mn ∷ names) m present =
    let here = present (method_text mn) (rw (==-self (method_text mn)) refl) in
    rw (check_missing, here) (all_present names m (λ name listed. present name (ground arith)))

check_unsupported-supported :
    (m : Methods) (name : String)
    → check_unsupported m ≡ ok tt
    → is_some (get m name) ≡ true
    → is_supported method_name_list name ≡ true
unfolding check_unsupported
check_unsupported-supported [] name passed found = cc
check_unsupported-supported ((n, r) ∷ m) name passed found =
    elim (Bool-cases (is_supported method_name_list n)) [
      | inl listed ↦ elim (Bool-cases (n == name)) [
        | inl same ↦ rw (sym (==→≡ n name same)) listed
        | inr other ↦
            check_unsupported-supported m name (rw (listed, check_unsupported) at passed)
              (rw other at found)
      ]
      | inr unlisted ↦ let bad = rw (unlisted, check_unsupported) at passed in cc
    ]

all_supported :
    (m : Methods)
    → ((name : String) → is_some (get m name) ≡ true → is_supported method_name_list name ≡ true)
    → check_unsupported m ≡ ok tt
unfolding check_unsupported
all_supported [] supported = refl
all_supported ((n, r) ∷ m) supported =
    let here = supported n (rw (==-self n) refl) in
    rw (check_unsupported, here)
      (all_supported m (λ name found.
        supported name
          (elim (Bool-cases (n == name)) [ inl same ↦ rw same refl | inr other ↦ rw other found ])))

Bool-agree : (a b : Bool) → (a ≡ true → b ≡ true) → (b ≡ true → a ≡ true) → a ≡ b
Bool-agree true b f g = sym (f refl)
Bool-agree false true f g = g refl
Bool-agree false false f g = refl

check-parts :
    (m : Methods)
    → check m ≡ ok tt
    → (check_missing method_name_list m ≡ ok tt) × (check_unsupported m ≡ ok tt)
unfolding check
check-parts m passed = elim (Result-cases (check_missing method_name_list m)) [
  | inl (_, present) ↦ (present, rw (check, present) at passed)
  | inr (x, failed) ↦ let bad = rw (check, failed) at passed in cc
]

-- Check accepts exactly the methods whose names are those of the list of method names.
pub check-iff_supported :
    (m : Methods)
    → (check m ≡ ok tt)
      ↔ ((name : String) → is_some (get m name) ≡ is_supported method_name_list name)
unfolding check
check-iff_supported m = (
  (λ passed name.
      Bool-agree (is_some (get m name)) (is_supported method_name_list name)
        (check_unsupported-supported m name (check-parts m passed).1)
        (check_missing-supported method_name_list m name (check-parts m passed).0)),
  λ exact.
      let present = all_present method_name_list m (λ name listed. rw (exact name) listed) in
      let listed = all_supported m (λ name found. rw (sym (exact name)) found) in
      rw (check, present) listed,
)
