-- ===== src/Redis/Operations.antt =====
-- The operations of server/src/storage/redis.rs on a queue: a sorted set of entries, and two hashes
-- that relate the identifiers of entries and their guids.
use denim.Prelude.{
  ℕ, ℤ, pos, pred_ℤ, Bool, true, false, not, Option, none, some, String, List, [], ◌∷◌, ◌++◌,
  length, take, drop, ltb, ◌==◌, ok, err, panic, out_of_fuel, Run, or_err, or_panic, if◌then◌else◌,
}
use denim.Text.{Text, codes, decimal, parse_u64}
use denim.Chunk.Types.{to_i32, dummy, final, data_chunk}
use denim.Redis.{
  Exchange, finish, query, attempt, return, as_unit, as_int, as_text, as_option, as_texts, ◌>>=◌,
  ◌>>◌, get_key, del_key, expire, hexists, hget, hdel, hincrby, hset, zadd, zadd_nx, zrange,
  zrange_byscore, zremrangebyscore, zrem, zcard, above, at, infinity,
}
use denim.Redis.Entries.{
  Base64, to_string, get_field_metadata, get_order_metadata, as_i32, create_payload_entry,
  bytes_decode,
}

-- The keys of one queue, as the caches pass them.
pub record Keys : Type 0 where
  pub queue : Text
  pub metadata : Text
  pub total_index : Text
  pub lock : Text

abbrev pub page_size : ℕ
page_size = 100

-- `format!("{}:rev", …)`
abbrev pub rev : Text → Text
rev metadata = metadata ++ codes ":rev"

abbrev pub counter : Text
counter = codes "counter"

-- 31 days.
abbrev pub expiry : ℕ
expiry = 2678400

abbrev pub is_some : {A : Type 0} → Option A → Bool
is_some none = false
is_some (some a) = true

abbrev pub first : {A : Type 0} → List A → Option A
first [] = none
first (x ∷ xs) = some x

-- `if !b { return Err(e) }`
abbrev pub check : Bool → String → Run (Unit {0})
check true e = ok tt
check false e = err e

module _ (base64 : Base64) (keys : Keys) where
  -- What `insert` does with a guid that is known, and with a new one. `now` is the clock, in seconds.
  unfoldable pub recorded_id : Text → Exchange ℕ
  recorded_id field_guid = do
    num ← query as_text (hget keys.metadata field_guid)
    finish (or_panic (parse_u64 num))

  unfoldable pub insert_new : Run ℕ → Text → List ℕ → Exchange ℕ
  unfolding create_payload_entry
  insert_new now field_guid value = do
    value_id ← query as_int (hincrby keys.metadata counter 1)
    query as_unit (zadd_nx keys.queue value_id (create_payload_entry base64 value_id value (pos 0)))
    query as_unit (hset keys.metadata field_guid (decimal value_id))
    query as_unit (hset (rev keys.metadata) (decimal value_id) field_guid)
    query as_unit (expire keys.queue)
    query as_unit (expire keys.metadata)
    time_in_millis ← finish now
    query as_unit (zadd_nx keys.total_index time_in_millis keys.queue)
    return value_id

  unfoldable pub insert : Run ℕ → Text → List ℕ → Exchange ℕ
  unfolding recorded_id insert_new
  insert now field_guid value = do
    message_guid_exists ← query as_int (hexists keys.metadata field_guid)
    (if message_guid_exists == 1 then recorded_id field_guid else insert_new now field_guid value)

  -- One round of the loop of `remove`, for an identifier that the guid has.
  unfoldable pub remove_value :
      {T : Type 0} → (List Text → Run (List T)) → Text → Text → Exchange (List T)
  remove_value decode guid value_id = do
    values ← query as_texts (zrange_byscore keys.queue (at value_id) (at value_id) (some 1))
    query as_unit (zremrangebyscore keys.queue (at value_id) (at value_id))
    query as_unit (hdel keys.metadata guid)
    query as_unit (hdel (rev keys.metadata) value_id)
    finish (decode values)

  unfoldable pub remove_loop :
      {T : Type 0} → (List Text → Run (List T)) → List Text → List T → Exchange (List T)
  unfolding remove_value
  remove_loop decode [] removed = return removed
  remove_loop decode (guid ∷ guids) removed = do
    found ← query as_option (hget keys.metadata guid)
    values ← elim found [ none ↦ return [] | some value_id ↦ remove_value decode guid value_id ]
    remove_loop decode guids (removed ++ values)

  -- The end of `remove`, which drops the keys of an empty queue.
  unfoldable pub drop_empty : ℕ → Exchange (Unit {0})
  drop_empty count =
      if count == 0
      then (do
        query as_unit (del_key keys.queue)
        query as_unit (del_key keys.metadata)
        query as_unit (zrem keys.total_index (keys.queue ∷ [])))
      else return tt

  unfoldable pub remove : {T : Type 0} → (List Text → Run (List T)) → List Text → Exchange (List T)
  unfolding remove_loop drop_empty
  remove decode field_guids = do
    removed_values ← remove_loop decode field_guids []
    count ← query as_int (zcard keys.queue)
    drop_empty count
    return removed_values

  -- An identifier in front of those of the later values.
  abbrev cons_id : Run ℕ → Run (List ℕ) → Run (List ℕ)
  cons_id (ok id) (ok ids) = ok (id ∷ ids)
  cons_id (ok id) (err e) = err e
  cons_id (ok id) panic = panic
  cons_id (ok id) out_of_fuel = out_of_fuel
  cons_id (err e) _ = err e
  cons_id panic _ = panic
  cons_id out_of_fuel _ = out_of_fuel

  unfoldable pub field_ids_of : List Text → Run (List ℕ)
  unfolding get_field_metadata
  field_ids_of [] = ok []
  field_ids_of (v ∷ vs) = cons_id (get_field_metadata v) (field_ids_of vs)

  -- `unwrap_or_default`
  abbrev pub or_empty : Option Text → Text
  or_empty none = []
  or_empty (some t) = t

  unfoldable pub guids_of : List ℕ → Exchange (List Text)
  guids_of [] = return []
  guids_of (id ∷ ids) = do
    field_guid ← query as_option (hget (rev keys.metadata) (decimal id))
    rest ← guids_of ids
    return (or_empty field_guid ∷ rest)

  -- What `get_values` does with a queue that is not locked.
  unfoldable pub page_of : ℤ → Exchange (List Text × List Text)
  unfolding field_ids_of guids_of
  page_of stop_index = do
    values ← query as_texts (zrange_byscore keys.queue (above stop_index) infinity (some page_size))
    field_ids ← finish (field_ids_of values)
    field_guids ← guids_of field_ids
    return (values, field_guids)

  unfoldable pub get_values : ℤ → Exchange (List Text × List Text)
  unfolding page_of
  get_values stop_index = do
    locked ← query as_option (get_key keys.lock)
    (if is_some locked then return ([], []) else page_of stop_index)

  unfoldable pub get_first : Exchange Text
  get_first = do
    locked ← query as_option (get_key keys.lock)
    finish (check (not (is_some locked)) "Failed to get first value: queue is locked.")
    values ← query as_texts (zrange keys.queue 0 0)
    finish (or_err (first values) "Failed to get first value: empty value.")

  -- What `update_value` does with the entry that it finds.
  unfoldable pub replace_entry : ℕ → List ℕ → Text → Exchange (Bool × ℤ)
  unfolding get_order_metadata as_i32 create_payload_entry
  replace_entry field_id new_value value = do
    old_entry ← finish (to_string value)
    removed ← query as_int (zrem keys.queue (old_entry ∷ []))
    finish (check (removed == 1) "Failed to remove value!")
    order ← finish (get_order_metadata value)
    num_added ← query as_int (
        zadd keys.queue field_id
          (create_payload_entry base64 field_id new_value (as_i32 (pred_ℤ order))))
    finish (check (num_added == 1) "Failed to add value!")
    finish (check (num_added == removed) "Update failed!")
    return (true, as_i32 order)

  unfoldable pub update_value : ℕ → List ℕ → Exchange (Bool × ℤ)
  unfolding replace_entry
  update_value field_id new_value = do
    value_guid_exists ←
        query as_texts
          (zrange_byscore keys.queue (at (decimal field_id)) (at (decimal field_id)) none)
    value ← finish (or_err (first value_guid_exists) "Failed to update non-existent value.")
    replace_entry field_id new_value value

  abbrev pub concat : List (List ℕ) → List ℕ
  concat [] = []
  concat (xs ∷ xss) = xs ++ concat xss

  -- The two ways in which `dequeue_bytes` takes from the first value.
  unfoldable pub take_part : ℕ → ℕ → List ℕ → Exchange (List ℕ × ℕ × ℤ)
  unfolding update_value to_i32
  take_part bytes_amount field_id value = do
    (updated, order) ← update_value field_id (drop bytes_amount value)
    finish (check updated "Failed to update value.")
    return (take bytes_amount value, length (take bytes_amount value), to_i32 (data_chunk order))

  unfoldable pub take_whole : ℕ → Exchange (List ℕ × ℕ × ℤ)
  unfolding remove bytes_decode to_i32
  take_whole field_id = do
    field_guid ← query as_option (hget (rev keys.metadata) (decimal field_id))
    guid ← finish (or_err field_guid "Failed to take values: field guid not found.")
    removed ← remove (bytes_decode base64) (guid ∷ [])
    return (concat removed, length (concat removed), to_i32 final)

  unfoldable pub dequeue_bytes : ℕ → Exchange (List ℕ × ℕ × ℤ)
  unfolding take_part take_whole get_first get_field_metadata bytes_decode
  dequeue_bytes bytes_amount = do
    found ← attempt get_first
    elim found [
      | none ↦ return ([], 0, to_i32 dummy)
      | some value ↦ do
        field_id ← finish (get_field_metadata value)
        values ← finish (bytes_decode base64 (value ∷ []))
        bytes ← finish (or_err (first values) "Failed to decode value.")
        (if ltb bytes_amount (length bytes)
            then take_part bytes_amount field_id bytes
            else take_whole field_id)
    ]
