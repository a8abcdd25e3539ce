-- ===== src/Postgres/Inbox.antt =====
-- server/src/storage/postgres.rs: the stored messages of a device.
use denim.Prelude.{ℕ, not, List, [], ◌∷◌, ◌++◌, map, length, ok, Run, ◌>>=◌, ◌%◌, ◌^◌}
use denim.Prelude.Effects as effects
use denim.Account.{ProtocolAddress}
use denim.WebApi.{Envelope}
use denim.Caches.Chunks.{Bincode}
use denim.Postgres.{
  DeviceRow, MessageRow, Tables, Engine, Steps, reading, writing, statement, where_rows,
  addressed_devices, is_one_of,
}

-- The messages to these devices.
abbrev pub messages_to : List DeviceRow → Tables → List MessageRow
messages_to ds t = where_rows (λ r. is_one_of ds r.receiver) t.msq_queue

abbrev pub u32_of : ℕ → ℕ
u32_of n = n % 2 ^ 32

module _ {E : Type 0} (engine : Engine E) (bincode : Bincode Envelope) where
  -- The `for` of `push_message_queue`.
  unfoldable pub push_message_queue : ProtocolAddress → List Envelope → Steps E (Unit {0})
  push_message_queue address [] = effects.return tt
  push_message_queue address (msg ∷ messages) =
      effects.◌>>=◌ (effects.lift (bincode.serialize msg)) λ data_of.
        effects.◌>>◌
          (writing engine λ t. addressed_devices address t >>= λ ds. ok (record t {
            msq_queue = t.msq_queue ++ map (λ d. record { receiver = d.id; msg = data_of }) ds;
          }))
          (push_message_queue address messages)

  -- The `try_fold`.
  unfoldable pub envelopes_of : List MessageRow → Run (List Envelope)
  envelopes_of [] = ok []
  envelopes_of (r ∷ rows) =
      bincode.deserialize r.msg >>= λ e. envelopes_of rows >>= λ es. ok (e ∷ es)

  -- `pop_msg_queue`, which takes nothing away, has the same text.
  unfoldable pub get_messages : ProtocolAddress → Steps E (List Envelope)
  unfolding envelopes_of
  get_messages address =
      effects.◌>>=◌
        (reading engine
          λ t. addressed_devices address t >>= λ ds. ok (engine.arrange (messages_to ds t)))
        λ rows. effects.lift (envelopes_of rows)

  unfoldable pub pop_msg_queue : ProtocolAddress → Steps E (List Envelope)
  unfolding get_messages
  pop_msg_queue address = get_messages address

  unfoldable pub count_messages : ProtocolAddress → Steps E ℕ
  count_messages address =
      reading engine
        λ t. addressed_devices address t >>= λ ds. ok (u32_of (length (messages_to ds t)))

  unfoldable pub delete_messages : ProtocolAddress → Steps E (List Envelope)
  unfolding envelopes_of
  delete_messages address =
      effects.◌>>=◌
        (statement engine λ t. addressed_devices address t >>= λ ds. ok (
          engine.arrange (messages_to ds t),
          record t { msq_queue = where_rows (λ r. not (is_one_of ds r.receiver)) t.msq_queue },
        ))
        λ rows. effects.lift (envelopes_of rows)
