-- ===== src/Server/LinkCode.antt =====
-- The code with which a device is linked: `handle_get_link_device_token` of
-- server/src/server/server.rs, and the checks of `handle_post_link_device` that change nothing.
use denim.Prelude.{
  ℕ, ◌-◌, ◌/◌, Bool, true, false, not, ◌&&◌, Option, List, [], ◌∷◌, ◌++◌, contains, ltb, ◌==◌,
  Outcome, ok, err, panic, out_of_fuel, Run, or_err, ◌>>=◌, if◌then◌else◌,
}
use denim.Text.{Text, split_once, parse_u64, decimal}
use denim.WebApi.{DeviceActivationRequest}
use denim.Account.{
  Account, AuthenticatedDevice, DeviceCapabilityType, capability_eq, value, has_capability,
  ServiceId,
}
use denim.Validators.{Verify, validate_pre_key_signatures}
use denim.Server.{ApiError, forbidden, unauthorized, internal_server_error}

-- Libraries: the keyed hash under the server's secret, the digest, the two kinds of base64, libsignal's
-- identifiers and signatures, and the clock.
pub record Crypto (S : Type 0) : Type 0 where
  pub mac : Text → List ℕ
  pub sha256 : Text → List ℕ
  pub url_safe_encode : List ℕ → Text
  pub url_safe_decode : Text → Option (List ℕ)
  pub url_safe_no_pad_encode : List ℕ → Text
  pub parse_service_id : Text → Option ServiceId
  pub service_id_text : Account → Text
  pub verify : Verify
  pub now_millis : S → ℕ

pub record LinkDeviceToken : Type 0 where
  pub verification_code : Text
  pub token_identifier : Text

-- The capabilities of the account that may not be lost, against those of the new device.
unfoldable pub no_downgrade :
    Account → List DeviceCapabilityType → List DeviceCapabilityType → Run Bool
unfolding has_capability value
no_downgrade account offered [] = ok true
no_downgrade account offered (c ∷ cs) =
    let others = no_downgrade account offered cs in
    if (value c).prevent_downgrade
    then elim (has_capability account c) [
      | ok true ↦ if contains offered c then others else ok false
      | ok false ↦ others
      | err e ↦ err e
      | panic ↦ panic
      | out_of_fuel ↦ out_of_fuel
    ]
    else others

-- `==` of byte slices.
unfoldable pub same_bytes : List ℕ → List ℕ → Bool
same_bytes [] [] = true
same_bytes (x ∷ xs) (y ∷ ys) = x == y && same_bytes xs ys
same_bytes _ _ = false

-- `Duration` subtraction panics below zero.
unfoldable pub elapsed_secs : ℕ → ℕ → Run ℕ
elapsed_secs now_millis timestamp =
    if ltb now_millis timestamp then panic else ok ((now_millis - timestamp) / 1000)

-- No error of these helpers is the handler's.
abbrev pub no_error : {A : Type 0} → Run A → Outcome ApiError A
no_error (ok a) = ok a
no_error _ = panic

module _ {S : Type 0} (crypto : Crypto S) where
  unfoldable pub handle_get_link_device_token :
      AuthenticatedDevice → S → Outcome ApiError LinkDeviceToken
  handle_get_link_device_token d s =
      if not (d.device.device_id == 1)
      then err unauthorized
      else (let claims = crypto.service_id_text d.account ++ b'.' ∷ decimal (crypto.now_millis s) in
          let token = claims ++ b':' ∷ crypto.url_safe_encode (crypto.mac claims) in
          ok (record {
            verification_code = token;
            token_identifier = crypto.url_safe_no_pad_encode (crypto.sha256 token);
          }))

  -- The code: its signature, the account it names, and its age.
  unfoldable pub check_code : Text → S → Outcome ApiError ServiceId
  unfolding split_once parse_u64 elapsed_secs same_bytes
  check_code verification_code s = do
    (claims, b64_signature) ← or_err (split_once b':' verification_code) forbidden
    signature ← or_err (crypto.url_safe_decode b64_signature) (internal_server_error "")
    (if same_bytes (crypto.mac claims) signature
        then (do
          (aci_str, timestamp_str) ← or_err (split_once b'.' claims) forbidden
          aci ← or_err (crypto.parse_service_id aci_str) forbidden
          timestamp ← or_err (parse_u64 timestamp_str) (internal_server_error "")
          elapsed ← no_error (elapsed_secs (crypto.now_millis s) timestamp)
          if ltb 600 elapsed then err forbidden else ok aci)
        else err forbidden)

  unfoldable pub check_keys : Account → DeviceActivationRequest → Bool
  unfolding validate_pre_key_signatures
  check_keys account request =
      validate_pre_key_signatures crypto.verify account.aci_identity_key
        (request.aci_signed_pre_key ∷ request.aci_pq_last_resort_pre_key ∷ [])
      && validate_pre_key_signatures crypto.verify account.pni_identity_key
          (request.pni_signed_pre_key ∷ request.pni_pq_last_resort_pre_key ∷ [])
