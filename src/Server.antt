-- ===== src/Server.antt =====
-- server/src/server/server.rs: the handlers of requests, over the managers that hold the state.
pub mod Envelopes
pub mod Messages
pub mod Chunks
pub mod Devices
pub mod LinkCode
pub mod Linking
pub mod Registration
use denim.Prelude.{ℕ, ◌≡◌, Bool, String, Option, List, [], ◌∷◌, ◌++◌, ok, Run, Eq, if◌then◌else◌}
use denim.Prelude.Effects.{Action}
use denim.WebApi.{Envelope}
use denim.Account.{Account, ServiceId, ProtocolAddress}
use denim.Validators.{StaleDevicesError, MismatchedDevicesError}

-- server/src/error.rs
pub record ApiError : Type 0 where
  pub status_code : ℕ
  pub body : String

abbrev pub forbidden : ApiError
forbidden = record { status_code = 403; body = "" }

abbrev pub unauthorized : ApiError
unauthorized = record { status_code = 401; body = "" }

abbrev pub internal_server_error : String → ApiError
internal_server_error text = record { status_code = 500; body = text }

-- base64, JSON and the clock.
pub record Host (S : Type 0) : Type 0 where
  pub base64_decode : String → Option (List ℕ)
  pub mismatched_to_string : MismatchedDevicesError → String
  pub stale_to_string : StaleDevicesError → String
  pub now_millis : S → ℕ
