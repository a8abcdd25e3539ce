-- ===== src/Server/Devices.antt =====
-- The handlers of server/src/server/server.rs that remove accounts and devices, and the keepalive.
pub mod Primary
use denim.Prelude.{
  ℕ, Bool, true, false, not, ◌&&◌, String, Option, none, some, ◌==◌, Outcome, ok, err,
  if◌then◌else◌,
}
use denim.Prelude.Effects.{Action, return, lift, on_err, ◌>>=◌}
use denim.Account.{
  AuthenticatedDevice, ServiceId, aci_id, ServiceIds, ProtocolAddress, aci_kind,
  device_protocol_address,
}
use denim.Server.{ApiError, forbidden, unauthorized, internal_server_error}

-- `AccountManager::delete_account` and `delete_device`; `registered` are the devices in the database.
pub record Accounts (S : Type 0) : Type 0 where
  pub delete_account : ServiceId → Action S String (Unit {0})
  pub delete_device : ProtocolAddress → Action S String (Unit {0})
  pub registered : S → ProtocolAddress → Bool

-- `ClientPresenceManager` and `WebSocketManager`, with the close of a connection, whose outcome the
-- handler drops.
pub record Connections (S : Type 0) : Type 1 where
  pub Connection : Type 0
  pub is_locally_present : S → ProtocolAddress → Bool
  pub connection_of : S → ProtocolAddress → Option Connection
  pub close_reason : Connection → ℕ → String → S → S

module _ {S : Type 0} (ids : ServiceIds) where
  unfoldable pub handle_delete_account :
      Accounts S → AuthenticatedDevice → Action S ApiError (Unit {0})
  handle_delete_account accounts d =
      on_err (λ _. internal_server_error "") (accounts.delete_account (aci_id d.account.aci))

  unfoldable pub handle_delete_device :
      Accounts S → ℕ → AuthenticatedDevice → Action S ApiError (Unit {0})
  handle_delete_device accounts device_id d =
      if not (d.device.device_id == 1) && not (d.device.device_id == device_id)
      then lift (err unauthorized)
      else if device_id == 1
      then lift (err forbidden)
      else on_err (λ _. internal_server_error "")
          (accounts.delete_device
            (record { name = ids.aci_string d.account.aci; device_id = device_id }))

  unfoldable pub handle_keepalive :
      Connections S → AuthenticatedDevice → Action S ApiError (Unit {0})
  unfolding device_protocol_address
  handle_keepalive connections d s =
      let address = device_protocol_address ids d aci_kind in
      if connections.is_locally_present s address
      then (ok tt, s)
      else elim (connections.connection_of s address) [
        | none ↦ (ok tt, s)
        | some c ↦ (ok tt, connections.close_reason c 1000 "OK" s)
      ]
