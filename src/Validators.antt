-- ===== src/Validators.antt =====
-- server/src/validators: do the messages of a request address the devices of the account, and are
-- uploaded keys signed.
pub mod Complete
use denim.Prelude.{
  ℕ, ◌≡◌, Bool, true, false, not, ◌&&◌, ◌||◌, Option, none, some, List, [], ◌∷◌, map, ltb, ◌==◌,
  Outcome, ok, err, if◌then◌else◌, contains, nat_eq,
}
use denim.WebApi.{SignalMessage, UploadSignedPreKey}
use denim.Account.{Account, Device, find_device}

pub record StaleDevicesError : Type 0 where
  pub stale_devices : List ℕ

pub record MismatchedDevicesError : Type 0 where
  pub missing_devices : List ℕ
  pub extra_devices : List ℕ

-- `iter().filter(…)`
unfoldable pub keep_if {ℓ} : {A : Type ℓ} → (A → Bool) → List A → List A
keep_if p [] = []
keep_if p (x ∷ xs) = if p x then x ∷ keep_if p xs else keep_if p xs

unfoldable pub registration_of : Bool → Device → ℕ
registration_of use_phone_number_identity d =
    if use_phone_number_identity then d.pni_registration_id else d.registration_id

unfoldable pub registration_id_matches : Account → Bool → ℕ × ℕ → Bool
unfolding registration_of find_device
registration_id_matches a use_phone_number_identity (device_id, registration_id) =
    elim (find_device device_id a.devices) [
      | none ↦ false
      | some d ↦ registration_id == registration_of use_phone_number_identity d
    ]

abbrev pub is_nil : List ℕ → Bool
is_nil [] = true
is_nil (x ∷ xs) = false

unfoldable pub validate_registration_id_from_id_tuple :
    Account → List (ℕ × ℕ) → Bool → Outcome StaleDevicesError (Unit {0})
unfolding keep_if registration_id_matches
validate_registration_id_from_id_tuple a pairs use_phone_number_identity =
    let with_id = keep_if (λ (p : ℕ × ℕ). ltb 0 p.1) pairs in
    let stale =
      map (λ (p : ℕ × ℕ). p.0)
        (keep_if (λ p. not (registration_id_matches a use_phone_number_identity p)) with_id) in
    if is_nil stale then ok tt else err (record { stale_devices = stale })

unfoldable pub validate_registration_id_from_messages :
    Account → List SignalMessage → Bool → Outcome StaleDevicesError (Unit {0})
unfolding validate_registration_id_from_id_tuple
validate_registration_id_from_messages a messages use_phone_number_identity =
    validate_registration_id_from_id_tuple a
      (map (λ (m : SignalMessage). (m.destination_device_id, m.destination_registration_id))
        messages)
      use_phone_number_identity

abbrev pub device_ids : List Device → List ℕ
device_ids = map (λ d. d.device_id)

unfoldable pub validate_complete_device_list :
    Account → List ℕ → List ℕ → Outcome MismatchedDevicesError (Unit {0})
unfolding keep_if
validate_complete_device_list a message_device_ids excluded_device_ids =
    let account_device_ids =
      keep_if (λ id. not (contains excluded_device_ids id)) (device_ids a.devices) in
    let missing = keep_if (λ id. not (contains message_device_ids id)) account_device_ids in
    let extra = keep_if (λ id. not (contains account_device_ids id)) message_device_ids in
    let mismatch : MismatchedDevicesError = record {
      missing_devices = missing;
      extra_devices = extra;
    } in
    if is_nil missing && is_nil extra then ok tt else err mismatch

-- libsignal's `verify_signature`: `none` is an error.
abbrev pub Verify : Type 0
Verify = List ℕ → List ℕ → List ℕ → Option Bool

-- `unwrap_or_default()`
abbrev pub or_default : Option Bool → Bool
or_default none = false
or_default (some b) = b

unfoldable pub validate_pre_key_signatures : Verify → List ℕ → List UploadSignedPreKey → Bool
validate_pre_key_signatures verify identity_key [] = true
validate_pre_key_signatures verify identity_key (k ∷ ks) =
    or_default (verify identity_key k.public_key k.signature)
    && validate_pre_key_signatures verify identity_key ks
