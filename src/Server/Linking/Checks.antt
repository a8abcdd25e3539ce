-- ===== src/Server/Linking/Checks.antt =====
-- What a linked device has passed.
use denim.Prelude.{
  ℕ, ◌≡◌, refl, ◌∙◌, Bool, true, false, not, String, some, inl, inr, Bool-cases, Outcome, ok, err,
  panic, out_of_fuel, if◌then◌else◌, Run, Option-cases,
}
use denim.Prelude.Effects.{Action, Gives, go_on-Gives, Gives-map, call-Gives, go_on, lift}
use denim.Text.{Text}
use denim.WebApi.{LinkDeviceRequest}
use denim.Account.{
  Account, Device, capability_eq, values, get_next_device_id, ServiceId, ServiceIds,
}
use denim.Server.{ApiError, internal_server_error, forbidden}
use denim.Server.LinkCode.{Crypto, no_error, no_downgrade, check_code, check_keys}
use denim.Server.Linking.{
  Accounts, LinkDeviceResponse, add_linked_device, link_to, handle_post_link_device,
}

-- The table of used codes takes a code once, and the other calls leave it.
pub record IsTable {S : Type 0} (accounts : Accounts S) (used : S → Text → Bool) : Type 0 where
  pub add-used :
      (code : Text) (s : S)
      → Gives
          (accounts.add_used_device_link_token code s)
          λ _ s'. (used s code ≡ false) × (used s' code ≡ true)
  pub keeps-add_device :
      (id : ServiceId) (d : Device) (code : Text) (s : S)
      → Gives (accounts.add_device id d s) λ _ s'. used s' code ≡ used s code
  pub keeps-generate_hash :
      (password : String) (code : Text) (s : S)
      → Gives (accounts.generate_hash password s) λ _ s'. used s' code ≡ used s code

-- A step that only reads, before the rest.
read-Gives :
    {S A B : Type 0} (o : Outcome ApiError A) (k : A → Action S ApiError B) (s : S)
    (Q : B → S → Type 0)
    → ((a : A) → o ≡ ok a → Gives (k a s) Q)
    → Gives (go_on (o, s) k) Q
read-Gives (ok a) k s Q h = h a refl
read-Gives (err e) k s Q h = tt
read-Gives panic k s Q h = tt
read-Gives out_of_fuel k s Q h = tt

module _ {S : Type 0} (crypto : Crypto S) (ids : ServiceIds) (accounts : Accounts S) where
  -- What is left to show for a property of a linked device.
  handle-link_to :
      (password : String) (request : LinkDeviceRequest) (s : S)
      (Q : LinkDeviceResponse → S → Type 0)
      → ((aci : ServiceId) (account : Account)
          → check_code crypto request.verification_code s ≡ ok aci
          → accounts.get_account s aci ≡ some account
          → Gives
              (link_to crypto ids accounts aci account password request (crypto.now_millis s) s)
              Q)
      → Gives (handle_post_link_device crypto ids accounts password request s) Q
  unfolding handle_post_link_device
  handle-link_to password request s Q h =
      read-Gives {A = ServiceId} {B = LinkDeviceResponse}
        (check_code crypto request.verification_code s) _ s Q
        λ aci checked. elim (Option-cases (accounts.get_account s aci)) [
          | inl missing ↦ rw missing tt
          | inr (account, found) ↦ rw found (h aci account checked found)
        ]

  handle-add_linked_device :
      (password : String) (request : LinkDeviceRequest) (s : S)
      (Q : LinkDeviceResponse → S → Type 0)
      → ((aci : ServiceId) (account : Account)
          → check_code crypto request.verification_code s ≡ ok aci
          → accounts.get_account s aci ≡ some account
          → no_downgrade account request.account_attributes.capabilities values ≡ ok true
          → Gives
              (add_linked_device crypto ids accounts aci account password request
                (crypto.now_millis s)
                s)
              Q)
      → Gives (handle_post_link_device crypto ids accounts password request s) Q
  unfolding link_to
  handle-add_linked_device password request s Q h =
      handle-link_to password request s Q λ aci account checked found.
        elim (Bool-cases (check_keys crypto account request.device_activation_request)) [
          | inr bad ↦ rw bad tt
          | inl valid ↦ rw valid (
              downgrade aci account checked found
                (no_downgrade account request.account_attributes.capabilities values) refl)
        ]
    where
      downgrade :
          (aci : ServiceId) (account : Account)
          → check_code crypto request.verification_code s ≡ ok aci
          → accounts.get_account s aci ≡ some account
          → (o : Run Bool) → no_downgrade account request.account_attributes.capabilities values ≡ o
          → Gives
              (go_on
                (no_error o, s)
                λ kept.
                  if not kept
                  then lift (err (record { status_code = 409; body = "" }))
                  else add_linked_device crypto ids accounts aci account password request
                      (crypto.now_millis s))
              Q
      downgrade aci account checked found (ok true) e = h aci account checked found e
      downgrade aci account checked found (ok false) e = tt
      downgrade aci account checked found (err x) e = tt
      downgrade aci account checked found panic e = tt
      downgrade aci account checked found out_of_fuel e = tt

  module _ (used : S → Text → Bool) (table : IsTable accounts used) where
    add_linked_device-uses :
        (aci : ServiceId) (account : Account) (password : String) (request : LinkDeviceRequest)
        (now : ℕ) (s : S)
        → Gives (add_linked_device crypto ids accounts aci account password request now s) λ _ s'.
          (used s request.verification_code ≡ false) × (used s' request.verification_code ≡ true)
    unfolding add_linked_device
    add_linked_device-uses aci account password request now s =
        let code : Text = request.verification_code in
        let goal : LinkDeviceResponse → S → Type 0 =
          λ _ s'. (used s code ≡ false) × (used s' code ≡ true) in
        call-Gives {E = ApiError} {A = Unit {0}} {B = LinkDeviceResponse} (λ _. forbidden)
          (accounts.add_used_device_link_token code s) _ _ goal (table.add-used code s)
          λ _ s₁ marked.
            read-Gives {A = ℕ} {B = LinkDeviceResponse} (no_error (get_next_device_id account)) _ s₁
              goal
              λ id _.
                go_on-Gives {E = ApiError} {A = String × String} {B = LinkDeviceResponse}
                  (accounts.generate_hash password s₁) _ _ goal
                  (table.keeps-generate_hash password code s₁)
                  λ hash s₂ kept.
                    call-Gives {E = ApiError} {A = Unit {0}} {B = LinkDeviceResponse}
                      (λ _. internal_server_error "") (accounts.add_device aci _ s₂) _ _ goal
                      (table.keeps-add_device aci _ code s₂)
                      λ _ s₃ still. (marked.0, still ∙ kept ∙ marked.1)

    -- A code links at most one device: after a request that has linked one, no other request with the
    -- same code does, whatever its password and its device are; if the table of used codes takes a
    -- code only once.
    pub handle_post_link_device-once :
        (password password' : String) (request request' : LinkDeviceRequest) (s : S)
        → request'.verification_code ≡ request.verification_code
        → Gives (handle_post_link_device crypto ids accounts password request s) λ _ s'.
          Gives (handle_post_link_device crypto ids accounts password' request' s') λ _ _. ⊥
    handle_post_link_device-once password password' request request' s same =
        handle-add_linked_device password request s _ λ aci account _ _ _.
          Gives-map {E = ApiError} {A = LinkDeviceResponse}
            (add_linked_device crypto ids accounts aci account password request
              (crypto.now_millis s) s)
            _ _ (add_linked_device-uses aci account password request (crypto.now_millis s) s)
            λ _ s' marked.
              handle-add_linked_device password' request' s' (λ _ _. ⊥)
                λ aci' account' _ _ _.
                  Gives-map {E = ApiError} {A = LinkDeviceResponse}
                    (add_linked_device crypto ids accounts aci' account' password' request'
                      (crypto.now_millis s') s')
                    _ _
                    (add_linked_device-uses aci' account' password' request' (crypto.now_millis s')
                      s')
                    λ _ _ again. cc
