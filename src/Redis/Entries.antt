-- ===== src/Redis/Entries.antt =====
-- The texts that a queue of server/src/storage/redis.rs stores, `id:base64:order`, and what is read
-- from them.
pub mod RoundTrip
use denim.Prelude.{
  ℕ, zero, suc, ◌+◌, ◌-◌, ◌%◌, ◌^◌, ℤ, pos, negsuc, pred_ℤ, Option, List, [], ◌∷◌, ◌++◌, map,
  get_elem?, Outcome, ok, err, Run, ◌>>=◌, or_err, or_panic, map_err, ltb, leb, if◌then◌else◌,
}
use denim.Text.{Text, split, decimal, decimal_ℤ, parse_u64, parse_i64}

-- `BASE64_STANDARD`, a library's.
pub record Base64 : Type 0 where
  pub encode : List ℕ → Text
  pub decode : Text → Run (List ℕ)

-- A value of Redis is a text here, so that `String::from_redis_value` is the identity and
-- `Vec::<String>::from_redis_value` a vector of one.
unfoldable pub to_string : Text → Run Text
to_string value = or_err (get_elem? (value ∷ []) 0) "Failed"

unfoldable pub get_field_metadata : Text → Run ℕ
unfolding to_string split parse_u64
get_field_metadata value = do
  text ← to_string value
  field ← or_err (get_elem? (split b':' text) 0) "Failed"
  or_err (parse_u64 field) "invalid digit found in string"

unfoldable pub get_order_metadata : Text → Run ℤ
unfolding to_string split parse_i64
get_order_metadata value = do
  text ← to_string value
  field ← or_err (get_elem? (split b':' text) 2) "Failed"
  or_err (parse_i64 field) "invalid digit found in string"

-- `n as i32`
unfoldable pub as_i32 : ℤ → ℤ
as_i32 (pos n) =
    if ltb (n % 2 ^ 32) (2 ^ 31) then pos (n % 2 ^ 32) else negsuc (2 ^ 32 - 1 - n % 2 ^ 32)
as_i32 (negsuc n) =
    if ltb (n % 2 ^ 32) (2 ^ 31) then negsuc (n % 2 ^ 32) else pos (2 ^ 32 - 1 - n % 2 ^ 32)

module _ (base64 : Base64) where
  unfoldable pub create_payload_entry : ℕ → List ℕ → ℤ → Text
  create_payload_entry id value order =
      decimal id ++ b':' ∷ (base64.encode value ++ b':' ∷ decimal_ℤ order)

  -- One value of `Bytes::decode`, then all of them.
  unfoldable pub decode_bytes : Text → Run (List ℕ)
  unfolding split
  decode_bytes v = do
    field ← or_panic (get_elem? (split b':' v) 1)
    map_err (λ _. "Redis value not base64!") (base64.decode field)

  unfoldable pub bytes_decode : List Text → Run (List (List ℕ))
  unfolding decode_bytes
  bytes_decode [] = ok []
  bytes_decode (v ∷ vs) = do bytes ← decode_bytes v; rest ← bytes_decode vs; ok (bytes ∷ rest)

  -- `expect`
  abbrev pub expect : {A : Type 0} → Run A → Run A
  expect (err e) = Outcome.panic
  expect r = r

  -- One value of the default `Decoder::decode`, then all of them.
  unfoldable pub decode_value : {T : Type 0} → (List ℕ → Run T) → Text → Run T
  unfolding split
  decode_value deserialize v = do
    field ← or_panic (get_elem? (split b':' v) 1)
    bytes ← expect (base64.decode field)
    deserialize bytes

  unfoldable pub object_decode : {T : Type 0} → (List ℕ → Run T) → List Text → Run (List T)
  unfolding decode_value
  object_decode deserialize [] = ok []
  object_decode deserialize (v ∷ vs) = do
    bytes ← decode_value deserialize v
    rest ← object_decode deserialize vs
    ok (bytes ∷ rest)
