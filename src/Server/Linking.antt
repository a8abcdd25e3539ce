-- ===== src/Server/Linking.antt =====
-- `handle_post_link_device` of server/src/server/server.rs.
pub mod Checks
use denim.Prelude.{
  ℕ, not, String, Option, none, some, List, [], ◌∷◌, Outcome, ok, err, if◌then◌else◌, or_err,
}
use denim.Prelude.Effects.{Action, return, lift, on_err, ◌>>=◌, ◌>>◌}
use denim.Text.{Text}
use denim.WebApi.{AccountAttributes, LinkDeviceRequest}
use denim.Account.{Account, Device, values, get_next_device_id, ServiceId, ServiceIds}
use denim.Server.{ApiError, forbidden, internal_server_error}
use denim.Server.LinkCode.{Crypto, no_error, no_downgrade, check_code, check_keys}

-- `AccountManager`, the table of used codes, and `SaltedTokenHash::generate_for`.
pub record Accounts (S : Type 0) : Type 0 where
  pub get_account : S → ServiceId → Option Account
  pub add_device : ServiceId → Device → Action S String (Unit {0})
  pub add_used_device_link_token : Text → Action S String (Unit {0})
  pub generate_hash : String → Action S ApiError (String × String)

pub record LinkDeviceResponse : Type 0 where
  pub aci : String
  pub pni : String
  pub device_id : ℕ

abbrev pub unprocessable : ApiError
unprocessable = record { status_code = 422; body = "" }

abbrev pub conflict : ApiError
conflict = record { status_code = 409; body = "" }

module _ {S : Type 0} (crypto : Crypto S) (ids : ServiceIds) (accounts : Accounts S) where
  -- Everything behind the checks of the code and of the keys.
  unfoldable pub add_linked_device :
      ServiceId → Account → String → LinkDeviceRequest → ℕ → Action S ApiError LinkDeviceResponse
  unfolding get_next_device_id
  add_linked_device aci account password request now = do
    on_err (λ _. forbidden) (accounts.add_used_device_link_token request.verification_code)
    new_device_id ← lift (no_error (get_next_device_id account))
    (hash, salt) ← accounts.generate_hash password
    on_err (λ _. internal_server_error "")
        (accounts.add_device aci (record {
          device_id = new_device_id;
          name = request.account_attributes.name;
          last_seen = now;
          created = now;
          auth_token = hash;
          salt = salt;
          registration_id = request.account_attributes.registration_id;
          pni_registration_id = request.account_attributes.pni_registration_id;
          capabilities = request.account_attributes.capabilities;
        }))
    return (record {
      aci = ids.aci_string account.aci;
      pni = ids.pni_string account.pni;
      device_id = new_device_id;
    })

  unfoldable pub link_to :
      ServiceId → Account → String → LinkDeviceRequest → ℕ → Action S ApiError LinkDeviceResponse
  unfolding check_keys no_downgrade add_linked_device
  link_to aci account password request now =
      if not (check_keys crypto account request.device_activation_request)
      then lift (err unprocessable)
      else (lift (no_error (no_downgrade account request.account_attributes.capabilities values))
          >>= λ kept.
              if not kept
              then lift (err conflict)
              else add_linked_device aci account password request now)

  unfoldable pub handle_post_link_device :
      String → LinkDeviceRequest → Action S ApiError LinkDeviceResponse
  unfolding check_code link_to
  handle_post_link_device password request = do
    aci ← λ s. (check_code crypto request.verification_code s, s)
    account ← λ s. (or_err (accounts.get_account s aci) (internal_server_error ""), s)
    λ s. link_to aci account password request (crypto.now_millis s) s
