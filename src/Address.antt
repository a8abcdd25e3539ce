-- ===== src/Address.antt =====
-- common/src/protocol_address.rs and `BasicAuthorizationHeader` of
-- common/src/web_api/authorization.rs: the two texts that name a device.
pub mod Parse
pub mod Authorization
use denim.Prelude.{
  ℕ, zero, suc, ◌+◌, Bool, true, false, not, String, Option, none, some, List, [], ◌∷◌, ◌++◌, drop,
  Outcome, Run, ok, err, panic, ◌>>=◌, or_err, or_panic, if◌then◌else◌, ◌≡◌,
}
use denim.Text.{Text, codes, find, starts_with, split_at, strip_dot, decimal, parse_u32}

-- A split ends in no error, so it may stand among steps that fail with any.
abbrev pub any_error {μ} : {E : Type μ} → Run (Text × Text) → Outcome E (Text × Text)
any_error (ok r) = ok r
any_error _ = panic

pub data ParseProtocolAddressError : Type 0 where
  invalid_format : ParseProtocolAddressError
  invalid_device_id : ParseProtocolAddressError

-- libsignal's `ProtocolAddress`, with its name as bytes.
pub record NamedDevice : Type 0 where
  pub name : Text
  pub device_id : ℕ

unfoldable pub parse_protocol_address : Text → Outcome ParseProtocolAddressError NamedDevice
unfolding find split_at strip_dot parse_u32
parse_protocol_address address = do
  dot ← or_err (find b'.' address) invalid_format
  (username, device_part) ← any_error (split_at dot address)
  digits ← or_panic (strip_dot device_part)
  device_id ← or_err (parse_u32 digits) invalid_device_id
  ok (record { name = username; device_id = device_id })

pub record BasicAuthorizationHeader : Type 0 where
  pub username : Text
  pub device_id : ℕ
  pub password : Text

-- base64 and the check of UTF-8, which are libraries'.
pub record Encodings : Type 0 where
  pub base64_encode : List ℕ → Text
  pub base64_decode : Text → Option (List ℕ)
  pub is_utf8 : List ℕ → Bool
  pub base64_decode-encode : (bytes : List ℕ) → base64_decode (base64_encode bytes) ≡ some bytes

-- `format!("{}.{}:{}", username, device_id, password)`
abbrev pub credentials : BasicAuthorizationHeader → Text
credentials h = h.username ++ b'.' ∷ (decimal h.device_id ++ b':' ∷ h.password)

unfoldable pub encode : Encodings → BasicAuthorizationHeader → Text
encode enc h = codes "Basic " ++ enc.base64_encode (credentials h)

-- What `decode` does with the decoded text.
unfoldable pub decode_credentials : Text → Run BasicAuthorizationHeader
unfolding find split_at strip_dot parse_u32
decode_credentials s = do
  colon_index ← or_err (find b':' s) "No ':' character in AuthorizationHeader."
  dot_index ← or_err (find b'.' s) "No '.' character in AuthorizationHeader."
  (address_part, rest) ← split_at colon_index s
  (username, device_part) ← split_at dot_index address_part
  digits ← or_panic (strip_dot device_part)
  device_id ← or_err (parse_u32 digits) "ParseIntError"
  ok (record { username = username; device_id = device_id; password = drop 1 rest })

unfoldable pub decode : Encodings → Text → Run BasicAuthorizationHeader
unfolding decode_credentials starts_with
decode enc s =
    if not (starts_with s (codes "Basic")) then err "Invalid authorization header type." else (do
      space_index ← or_err (find b' ' s) "No ' ' character in AuthorizationHeader."
      bytes ← or_err (enc.base64_decode (drop (space_index + 1) s)) "DecodeError"
      if enc.is_utf8 bytes then decode_credentials bytes else err "FromUtf8Error")
