-- ===== src/Server/Devices/Primary.antt =====
-- Who may remove which device.
use denim.Prelude.{
  ℕ, ◌≡◌, ◌≢◌, ◌↔◌, ◌⊎◌, inl, inr, refl, ◌∙◌, not, ◌&&◌, String, List, [], ◌∷◌, arith, ◌==◌, ok,
  Bool-cases,
}
use denim.Account.{AuthenticatedDevice, ServiceIds, ProtocolAddress}
use denim.Server.Devices.{Accounts, handle_delete_device}

-- Removing a device leaves the others, whatever the call ends in.
abbrev pub RemovesOne : {S : Type 0} → Accounts S → Type 0
RemovesOne {S} accounts =
    (a b : ProtocolAddress) (s : S)
    → a.device_id ≢ b.device_id
    → accounts.registered (accounts.delete_device a s).1 b ≡ accounts.registered s b

-- A reachable database.
abbrev pub Removes : {S : Type 0} → Accounts S → Type 0
Removes {S} accounts = (a : ProtocolAddress) (s : S) → (accounts.delete_device a s).0 ≡ ok tt

module _ {S : Type 0} (ids : ServiceIds) (accounts : Accounts S) where
  -- With a reachable database, the request to remove a device is granted exactly to the primary device
  -- and to the device itself, and never for the primary device.
  pub handle_delete_device_iff :
      Removes accounts
      → (device_id : ℕ) (d : AuthenticatedDevice) (s : S)
      → ((handle_delete_device ids accounts device_id d s).0 ≡ ok tt)
        ↔ ((device_id ≢ 1) × ((d.device.device_id ≡ 1) ⊎ (d.device.device_id ≡ device_id)))
  unfolding handle_delete_device
  handle_delete_device_iff up device_id d s =
      ground (arith, up (record { name = ids.aci_string d.account.aci; device_id = device_id }) s)

  -- The requests of any devices to remove any devices, one after the other.
  abbrev pub after_requests : List (ℕ × AuthenticatedDevice) → S → S
  after_requests [] s = s
  after_requests ((device_id, d) ∷ requests) s =
      after_requests requests (handle_delete_device ids accounts device_id d s).1

  -- No requests to remove a device, from whatever devices they come, remove a primary device, if the
  -- database removes no more than what it is asked to. (The request to delete an account does.)
  pub handle_delete_device-keeps_primary :
      RemovesOne accounts
      → (requests : List (ℕ × AuthenticatedDevice)) (name : String) (s : S)
      → accounts.registered (after_requests requests s) (record { name = name; device_id = 1 })
        ≡ accounts.registered s (record { name = name; device_id = 1 })
  unfolding handle_delete_device
  handle_delete_device-keeps_primary one [] name s = refl
  handle_delete_device-keeps_primary one ((device_id, d) ∷ requests) name s =
      handle_delete_device-keeps_primary one requests name
        (handle_delete_device ids accounts device_id d s).1
      ∙ kept
    where
      kept :
          accounts.registered
            (handle_delete_device ids accounts device_id d s).1
            (record { name = name; device_id = 1 })
          ≡ accounts.registered s (record { name = name; device_id = 1 })
      kept =
          elim (Bool-cases
            (not (d.device.device_id == 1) && not (d.device.device_id == device_id))) [
              | inl stranger ↦ rw stranger
              | inr may ↦ elim (Bool-cases (device_id == 1)) [
                | inl primary ↦ rw (may, primary)
                | inr other ↦
                    rw (may, other)
                      (one (record { name = ids.aci_string d.account.aci; device_id = device_id })
                        (record { name = name; device_id = 1 }) s (ground arith))
              ]
            ]
