-- ===== src/WebApi.antt =====
-- The messages of common/src/web_api/mod.rs that the modelled code passes on. `chunk` types are in
-- Chunk/Types.
use denim.Prelude.{ℕ, Bool, String, Option, List, ℤ}
use denim.Text.{Text}
use denim.Account.{DeviceCapabilityType}
use denim.Chunk.Types.{DenimChunk}

pub record UploadSignedPreKey : Type 0 where
  pub key_id : ℕ
  pub public_key : List ℕ
  pub signature : List ℕ

pub record UploadPreKey : Type 0 where
  pub key_id : ℕ
  pub public_key : List ℕ

pub record SetKeyRequest : Type 0 where
  pub pre_key : Option (List UploadPreKey)
  pub signed_pre_key : Option UploadSignedPreKey
  pub pq_pre_key : Option (List UploadSignedPreKey)
  pub pq_last_resort_pre_key : Option UploadSignedPreKey

pub record DevicePreKeyBundle : Type 0 where
  pub aci_signed_pre_key : UploadSignedPreKey
  pub pni_signed_pre_key : UploadSignedPreKey
  pub aci_pq_pre_key : UploadSignedPreKey
  pub pni_pq_pre_key : UploadSignedPreKey

pub record PreKeyRequest : Type 0 where
  pub service_id : String

pub record PreKeyResponseItem : Type 0 where
  pub device_id : ℕ
  pub registration_id : ℕ
  pub pre_key : Option UploadPreKey
  pub pq_pre_key : UploadSignedPreKey
  pub signed_pre_key : UploadSignedPreKey

pub record PreKeyResponse : Type 0 where
  pub service_id : String
  pub identity_key : List ℕ
  pub devices : List PreKeyResponseItem

-- `r#type` is `kind`.
pub record SignalMessage : Type 0 where
  pub kind : ℤ
  pub destination_device_id : ℕ
  pub destination_service_id : Option String
  pub destination_registration_id : ℕ
  pub content : String

-- The fields of the protobuf message that the server and the client set.
pub record Envelope : Type 0 where
  pub kind : Option ℤ
  pub source_service_id : Option String
  pub source_device : Option ℕ
  pub timestamp : Option ℕ
  pub content : Option (List ℕ)
  pub server_guid : Option String
  pub server_timestamp : Option ℕ
  pub ephemeral : Option Bool
  pub destination_service_id : Option String
  pub urgent : Option Bool
  pub updated_pni : Option String
  pub story : Option Bool
  pub reporting_token : Option (List ℕ)

pub data RegularPayload : Type 0 where
  signal_message : SignalMessage → RegularPayload
  envelope : Envelope → RegularPayload

pub data DeniablePayload : Type 0 where
  signal_message : SignalMessage → DeniablePayload
  envelope : Envelope → DeniablePayload
  key_request : PreKeyRequest → DeniablePayload
  key_response : PreKeyResponse → DeniablePayload

-- `F` is `f32`.
pub record DenimMessage (F : Type 0) : Type 0 where
  pub regular_payload : RegularPayload
  pub chunks : List DenimChunk
  pub counter : Option ℤ
  pub q : Option F
  pub ballast : List ℕ

pub record DenimMessages (F : Type 0) : Type 0 where
  pub messages : List (DenimMessage F)
  pub online : Bool
  pub urgent : Bool
  pub timestamp : ℕ

pub record AccountAttributes : Type 0 where
  pub name : String
  pub fetches_messages : Bool
  pub registration_id : ℕ
  pub pni_registration_id : ℕ
  pub capabilities : List DeviceCapabilityType
  pub unidentified_access_key : List ℕ

pub record DeviceActivationRequest : Type 0 where
  pub aci_signed_pre_key : UploadSignedPreKey
  pub pni_signed_pre_key : UploadSignedPreKey
  pub aci_pq_last_resort_pre_key : UploadSignedPreKey
  pub pni_pq_last_resort_pre_key : UploadSignedPreKey

-- The code is walked, and so it is given as bytes.
pub record LinkDeviceRequest : Type 0 where
  pub verification_code : Text
  pub account_attributes : AccountAttributes
  pub device_activation_request : DeviceActivationRequest

-- The tokens for notifications are not read.
pub record RegistrationRequest : Type 0 where
  pub session_id : String
  pub recovery_password : String
  pub account_attributes : AccountAttributes
  pub require_atomic : Bool
  pub skip_device_transfer : Bool
  pub aci_identity_key : List ℕ
  pub pni_identity_key : List ℕ
  pub aci_signed_pre_key : UploadSignedPreKey
  pub pni_signed_pre_key : UploadSignedPreKey
  pub aci_pq_last_resort_pre_key : UploadSignedPreKey
  pub pni_pq_last_resort_pre_key : UploadSignedPreKey

pub record RegistrationResponse : Type 0 where
  pub uuid : String
  pub number : String
  pub pni : String
  pub username_hash : Option (List ℕ)
  pub storage_capable : Bool
