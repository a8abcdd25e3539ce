-- ===== src/Storage/Device/Deniable.antt =====
-- client/src/storage/device.rs: deniable payloads that wait to be sent, requests of keys, messages that
-- wait for keys, and chunks of a payload that has not arrived as a whole.
use denim.Prelude.{
  ℕ, nat_eq, ℤ, pos, String, string_eq, Option, none, some, List, [], ◌∷◌, ◌++◌, ok, if◌then◌else◌,
}
use denim.Prelude.Dict.{get, contains_key, insert, remove}
use denim.Prelude.Effects.{return, ◌>>=◌, ◌>>◌}
use denim.Chunk.Types.{DenimChunk}
use denim.Storage.{
  Engine, Steps, called, changing, reading, writing, for_rows, first_row, row_or_err, transaction,
}

module _ {E : Type 0} (engine : Engine E) where
  unfoldable pub get_deniable_payload : Steps E (ℕ × List ℕ × ℤ)
  get_deniable_payload =
      reading engine (λ t. first_row (engine.arrange t.deniable_payload.entries)) >>= λ row.
      return (row.0, row.1.0, row.1.1)

  unfoldable pub get_deniable_payload_by_id : ℕ → Steps E (List ℕ × ℤ)
  get_deniable_payload_by_id payload_id =
      reading engine λ t. row_or_err (get t.deniable_payload payload_id)

  -- An update of a row that is not there changes nothing.
  unfoldable pub store_deniable_payload : Option ℕ → ℤ → List ℕ → Steps E (Unit {0})
  store_deniable_payload none chunk_count payload = writing engine λ t. record t {
    deniable_payload =
        insert t.deniable_payload (engine.fresh_id t.deniable_payload.entries) (payload, pos 0);
  }
  store_deniable_payload (some id) chunk_count payload = writing engine λ t.
      if contains_key t.deniable_payload id
      then (record t { deniable_payload = insert t.deniable_payload id (payload, chunk_count) })
      else t

  unfoldable pub remove_deniable_payload : ℕ → Steps E (Unit {0})
  remove_deniable_payload payload_id =
      writing engine λ t. record t { deniable_payload = remove t.deniable_payload payload_id }

  unfoldable pub try_get_key_request_sent : String → Steps E (Option String)
  try_get_key_request_sent service_id =
      reading engine λ t. ok (get t.deniable_key_requests_sent service_id)

  unfoldable pub store_key_request_sent : String → String → Steps E (Unit {0})
  store_key_request_sent service_id alias = writing engine λ t. record t {
    deniable_key_requests_sent = insert t.deniable_key_requests_sent service_id alias;
  }

  unfoldable pub remove_key_request_sent : String → Steps E (Unit {0})
  remove_key_request_sent service_id =
      writing engine λ t. record t {
        deniable_key_requests_sent = remove t.deniable_key_requests_sent service_id;
      }

  -- The messages of the rows with this alias.
  abbrev pub messages_for : String → List (ℕ × (String × String)) → List String
  messages_for alias [] = []
  messages_for alias ((id, (message, a)) ∷ rows) =
      if string_eq.eqb a alias then message ∷ messages_for alias rows else messages_for alias rows

  unfoldable pub get_messages_awaiting_encryption : String → Steps E (List String)
  get_messages_awaiting_encryption alias = do
    rows ←
        reading engine λ t.
          ok (messages_for alias (engine.arrange t.deniable_message_awaiting_encryption.entries))
    for_rows engine (λ message messages. return (messages ++ message ∷ [])) rows []

  unfoldable pub store_message_awaiting_encryption : String → String → Steps E (Unit {0})
  store_message_awaiting_encryption message alias = writing engine λ t. record t {
    deniable_message_awaiting_encryption =
        insert t.deniable_message_awaiting_encryption
          (engine.fresh_id t.deniable_message_awaiting_encryption.entries) (message, alias);
  }

  unfoldable pub remove_message_awaiting_encryption : ℕ → Steps E (Unit {0})
  remove_message_awaiting_encryption message_id = writing engine λ t. record t {
    deniable_message_awaiting_encryption = remove t.deniable_message_awaiting_encryption message_id;
  }

  -- `delete_stmt.execute`
  abbrev pub delete_chunk : ℕ → Steps E (Unit {0})
  delete_chunk id =
      called engine.execute
      >> changing λ t. record t { incoming_deniable_chunk = remove t.incoming_deniable_chunk id }

  abbrev pub take_chunk : ℕ × (List ℕ × ℤ) → List DenimChunk → Steps E (List DenimChunk)
  take_chunk (id, (chunk, flags)) chunks =
      delete_chunk id >> return (chunks ++ record { chunk = chunk; flags = flags } ∷ [])

  unfoldable pub get_and_remove_incoming_deniable_chunks : Steps E (List DenimChunk)
  get_and_remove_incoming_deniable_chunks = transaction engine (do
    rows ← reading engine λ t. ok (engine.arrange t.incoming_deniable_chunk.entries)
    called engine.prepare
    for_rows engine take_chunk rows [])

  -- The `for` of `store_incoming_deniable_chunks`.
  unfoldable pub insert_chunks : List DenimChunk → Steps E (Unit {0})
  insert_chunks [] = return tt
  insert_chunks (c ∷ chunks) = do
    called engine.execute
    changing λ t. record t {
      incoming_deniable_chunk =
          insert t.incoming_deniable_chunk (engine.fresh_id t.incoming_deniable_chunk.entries)
            (c.chunk, c.flags);
    }
    insert_chunks chunks

  unfoldable pub store_incoming_deniable_chunks : List DenimChunk → Steps E (Unit {0})
  unfolding insert_chunks
  store_incoming_deniable_chunks chunks =
      transaction engine (called engine.prepare >> insert_chunks chunks)
