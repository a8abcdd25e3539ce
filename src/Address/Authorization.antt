-- ===== src/Address/Authorization.antt =====
-- The header of a basic authorization: what is encoded is decoded, and what makes decoding panic.
use denim.Prelude.{
  ℕ, ◌≤◌, ◌≡◌, ◌≢◌, sym, true, ◌∷◌, ◌++◌, arith, length, ok, panic, u32_max, append_assoc,
  length-append,
}
use denim.Text.{Text, find, starts_with, split_at, strip_dot, decimal}
use denim.Text.Decimal.{parse_u32-decimal, decimal-Lacks}
use denim.Text.Find.{Lacks, find-append, split_at-length}
use denim.Address.{
  BasicAuthorizationHeader, Encodings, credentials, encode, decode, decode_credentials,
}
use denim.Text.Find.{Lacks-append}

-- The part of the credentials in front of the password.
abbrev address_of : BasicAuthorizationHeader → Text
address_of h = h.username ++ b'.' ∷ decimal h.device_id

credentials-split :
    (h : BasicAuthorizationHeader) → credentials h ≡ address_of h ++ b':' ∷ h.password
credentials-split h = sym (append_assoc h.username (b'.' ∷ decimal h.device_id) (b':' ∷ h.password))

decode_credentials-credentials :
    (h : BasicAuthorizationHeader)
    → Lacks b'.' h.username
    → Lacks b':' h.username
    → h.device_id ≤ u32_max
    → decode_credentials (credentials h) ≡ ok h
unfolding decode_credentials strip_dot
decode_credentials-credentials h no_dot no_colon fits = rw (
  find-append b'.' h.username (decimal h.device_id ++ b':' ∷ h.password) no_dot,
  credentials-split h,
  find-append b':' (address_of h) h.password (
      Lacks-append b':' h.username (b'.' ∷ decimal h.device_id) no_colon
        (dot_ne_colon, decimal-Lacks b':' h.device_id (omega arith))),
  split_at-length (address_of h) (b':' ∷ h.password),
  split_at-length h.username (b'.' ∷ decimal h.device_id),
  parse_u32-decimal h.device_id fits,
)
  where
    dot_ne_colon : ◌≢◌ {A = ℕ} b'.' b':'
    dot_ne_colon e = omega arith

-- A header that is encoded is decoded to itself, if its username has neither a dot nor a colon, its
-- device identifier fits into 32 bits and its text is UTF-8. The password is arbitrary.
pub decode-encode :
    (enc : Encodings) (h : BasicAuthorizationHeader)
    → Lacks b'.' h.username
    → Lacks b':' h.username
    → h.device_id ≤ u32_max
    → enc.is_utf8 (credentials h) ≡ true
    → decode enc (encode enc h) ≡ ok h
unfolding decode encode starts_with find
decode-encode enc h no_dot no_colon fits utf8 =
    rw (enc.base64_decode-encode (credentials h), utf8)
      (decode_credentials-credentials h no_dot no_colon fits)

split_past : (s t : Text) → split_at (length (s ++ b':' ∷ t)) s ≡ panic
unfolding split_at
split_past s t = ground (arith, length-append s (b':' ∷ t))

-- Where the first dot stands behind the first colon, that is where the user name and device have no
-- dot but the password has one, decoding panics.
pub decode_credentials-panic :
    (user password rest : Text)
    → Lacks b':' user
    → Lacks b'.' user
    → Lacks b'.' password
    → decode_credentials (user ++ b':' ∷ (password ++ b'.' ∷ rest)) ≡ panic
unfolding decode_credentials
decode_credentials-panic user password rest no_colon no_dot password_no_dot = rw (
  find-append b':' user (password ++ b'.' ∷ rest) no_colon,
  split_at-length user (b':' ∷ (password ++ b'.' ∷ rest)),
  ← append_assoc user (b':' ∷ password) (b'.' ∷ rest),
  find-append b'.' (user ++ b':' ∷ password) rest
      (Lacks-append b'.' user (b':' ∷ password) no_dot (colon_ne_dot, password_no_dot)),
  split_past user password,
)
  where
    colon_ne_dot : ◌≢◌ {A = ℕ} b':' b'.'
    colon_ne_dot e = omega arith
