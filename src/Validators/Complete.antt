-- ===== src/Validators/Complete.antt =====
-- When the validators accept.
use denim.Prelude.{
  ℕ, ◌≡◌, ◌↔◌, ◌⊎◌, inl, inr, refl, sym, ap, ◌∙◌, Bool, true, false, not, ◌&&◌, some, List, [], ◌∷◌,
  map, arith, ltb, ==_iff, ok, contains, nat_eq, Bool-cases, Option-cases,
}
use denim.Account.{Account, Device, find_device}
use denim.Validators.{
  keep_if, is_nil, registration_of, registration_id_matches, validate_registration_id_from_id_tuple,
  device_ids, validate_complete_device_list,
}

contains-keep_if :
    (p : ℕ → Bool) (xs : List ℕ) (d : ℕ) → contains (keep_if p xs) d ≡ (contains xs d && p d)
unfolding keep_if
contains-keep_if p [] d = refl
contains-keep_if p (x ∷ xs) d = ground (arith, contains-keep_if p xs d, ==_iff x d)

is_nil-keep_if :
    (p : ℕ → Bool) (xs : List ℕ) (d : ℕ)
    → is_nil (keep_if p xs) ≡ true
    → contains xs d ≡ true
    → p d ≡ false
unfolding keep_if
is_nil-keep_if p [] d e h = cc
is_nil-keep_if p (x ∷ xs) d e h = ground (arith, is_nil-keep_if p xs d, ==_iff x d)

keep_if-is_nil :
    (p : ℕ → Bool) (xs : List ℕ)
    → ((d : ℕ) → contains xs d ≡ true → p d ≡ false)
    → is_nil (keep_if p xs) ≡ true
unfolding keep_if
keep_if-is_nil p [] h = refl
keep_if-is_nil p (x ∷ xs) h =
    rw (h x (ground (arith, ==_iff x x))) (keep_if-is_nil p xs λ d m. h d (ground arith))

abbrev Addresses : Account → List ℕ → List ℕ → Type 0
Addresses a message_ids excluded =
    (d : ℕ)
    → contains message_ids d ≡ (contains (device_ids a.devices) d && not (contains excluded d))

complete→Addresses :
    (a : Account) (message_ids excluded : List ℕ)
    → validate_complete_device_list a message_ids excluded ≡ ok tt
    → Addresses a message_ids excluded
unfolding validate_complete_device_list
complete→Addresses a message_ids excluded e d =
    let expected : List ℕ = keep_if (λ id. not (contains excluded id)) (device_ids a.devices) in
    ground (
      arith,
      contains-keep_if (λ id. not (contains excluded id)) (device_ids a.devices) d,
      is_nil-keep_if (λ id. not (contains message_ids id)) expected d,
      is_nil-keep_if (λ id. not (contains expected id)) message_ids d,
    )

Addresses→complete :
    (a : Account) (message_ids excluded : List ℕ)
    → Addresses a message_ids excluded
    → validate_complete_device_list a message_ids excluded ≡ ok tt
unfolding validate_complete_device_list
Addresses→complete a message_ids excluded h =
    let expected : List ℕ = keep_if (λ id. not (contains excluded id)) (device_ids a.devices) in
    let at_expected : (d : ℕ) → contains expected d ≡ contains message_ids d = λ d.
      contains-keep_if (λ id. not (contains excluded id)) (device_ids a.devices) d ∙ sym (h d) in
    rw (
      keep_if-is_nil (λ id. not (contains message_ids id)) expected
          (λ d m. ap not (sym (at_expected d) ∙ m)),
      keep_if-is_nil (λ id. not (contains expected id)) message_ids
          (λ d m. ap not (at_expected d ∙ m)),
    )

-- A request is accepted exactly when it has a message for every device of the account that is not
-- excluded, and for no other device.
pub validate_complete_device_list_iff :
    (a : Account) (message_ids excluded : List ℕ)
    → (validate_complete_device_list a message_ids excluded ≡ ok tt) ↔ (
        (d : ℕ)
        → contains message_ids d ≡ (contains (device_ids a.devices) d && not (contains excluded d)))
validate_complete_device_list_iff a message_ids excluded =
    (complete→Addresses a message_ids excluded, Addresses→complete a message_ids excluded)

-- What a device identifier and a registration identifier of a message must be: unset, or those of a
-- device of the account.
abbrev pub IsFresh : Account → Bool → ℕ × ℕ → Type 0
IsFresh a pni (device_id, registration_id) =
    (registration_id ≡ 0)
    ⊎ ((d : Device) × (find_device device_id a.devices ≡ some d)
        × (registration_id ≡ registration_of pni d))

abbrev pub AllFresh : Account → Bool → List (ℕ × ℕ) → Type 0
AllFresh a pni [] = Unit {0}
AllFresh a pni (p ∷ ps) = IsFresh a pni p × AllFresh a pni ps

IsFresh-of_test :
    (a : Account) (pni : Bool) (p : ℕ × ℕ)
    → (ltb 0 p.1 && not (registration_id_matches a pni p)) ≡ false
    → IsFresh a pni p
unfolding registration_id_matches
IsFresh-of_test a pni (id, reg) h = elim (Bool-cases (ltb 0 reg)) [
  | inr unset ↦ inl (ground arith)
  | inl is_set ↦ elim (Option-cases (find_device id a.devices)) [
    | inl missing ↦ absurd (ground arith)
    | inr (d, found) ↦ inr (d, found, ground arith)
  ]
]

IsFresh-test :
    (a : Account) (pni : Bool) (p : ℕ × ℕ)
    → IsFresh a pni p
    → (ltb 0 p.1 && not (registration_id_matches a pni p)) ≡ false
unfolding registration_id_matches
IsFresh-test a pni (id, reg) (inl unset) = ground arith
IsFresh-test a pni (id, reg) (inr (d, found, same)) = ground arith

abbrev stale_ids : Account → Bool → List (ℕ × ℕ) → List ℕ
stale_ids a pni ps =
    map (λ (p : ℕ × ℕ). p.0)
      (keep_if (λ p. not (registration_id_matches a pni p)) (keep_if (λ (p : ℕ × ℕ). ltb 0 p.1) ps))

AllFresh-of_nil :
    (a : Account) (pni : Bool) (ps : List (ℕ × ℕ))
    → is_nil (stale_ids a pni ps) ≡ true
    → AllFresh a pni ps
unfolding keep_if
AllFresh-of_nil a pni [] h = tt
AllFresh-of_nil a pni (p ∷ ps) h =
    (IsFresh-of_test a pni p (ground arith), AllFresh-of_nil a pni ps (ground arith))

AllFresh-nil :
    (a : Account) (pni : Bool) (ps : List (ℕ × ℕ))
    → AllFresh a pni ps
    → is_nil (stale_ids a pni ps) ≡ true
unfolding keep_if
AllFresh-nil a pni [] h = refl
AllFresh-nil a pni (p ∷ ps) h = ground (arith, IsFresh-test a pni p h.0, AllFresh-nil a pni ps h.1)

-- The identifiers are accepted exactly when each registration identifier that is set is that of the
-- device it stands with, for the phone-number identity or the account identity as asked for.
pub validate_registration_id_iff :
    (a : Account) (pairs : List (ℕ × ℕ)) (pni : Bool)
    → (validate_registration_id_from_id_tuple a pairs pni ≡ ok tt) ↔ AllFresh a pni pairs
unfolding validate_registration_id_from_id_tuple
validate_registration_id_iff a pairs pni =
    (λ e. AllFresh-of_nil a pni pairs (ground arith), λ h. rw (AllFresh-nil a pni pairs h))
