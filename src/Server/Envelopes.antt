-- ===== src/Server/Envelopes.antt =====
-- server/src/envelope.rs: the envelope in which the server stores a message.
use denim.Prelude.{ℕ, ◌%◌, Bool, List, String, Option, none, some, Run, ok, ◌>>=◌, or_panic}
use denim.WebApi.{SignalMessage, Envelope}
use denim.Account.{Account, ServiceId, ServiceIds, service_id_string}

abbrev u64_range : ℕ
u64_range = 18446744073709551616

-- The arguments `base64_decode` and `now_millis` are the library's and the clock's. The source
-- decodes with `unwrap`.
unfoldable pub to_envelope :
    (String → Option (List ℕ))
    → ServiceIds
    → ℕ
    → SignalMessage
    → ServiceId
    → Account
    → ℕ
    → ℕ
    → Bool
    → Run Envelope
to_envelope base64_decode ids now_millis m destination_id source_account source_device_id timestamp
      urgent =
    do
      content ← or_panic (base64_decode m.content)
      ok (record {
        kind = some m.kind;
        source_service_id = some (ids.aci_string source_account.aci);
        source_device = some source_device_id;
        timestamp = some timestamp;
        content = some content;
        server_guid = none;
        server_timestamp = some (now_millis % u64_range);
        ephemeral = none;
        destination_service_id = some (service_id_string ids destination_id);
        urgent = some urgent;
        updated_pni = none;
        story = none;
        reporting_token = none;
      })
