-- ===== src/Messages/Persister/Batches.antt =====
-- What one round of `persist_queue` of server/src/persisters/message_persister.rs reads and removes.
use denim.Prelude.{
  ℕ, zero, suc, ◌≡◌, refl, ap, ◌∙◌, false, Option, some, List, [], ◌∷◌, ◌++◌, map, take, drop,
  take-append-drop, append_assoc, arith, ok, err, panic, out_of_fuel, Run,
}
use denim.Prelude.Effects.{Ends}
use denim.Text.{text_eqb, codes}
use denim.Account.{ProtocolAddress}
use denim.WebApi.{Envelope}
use denim.Caches.Chunks.{Bincode}
use denim.Caches.Messages as cache
use denim.Caches.Messages.{keys_of}
use denim.Redis.{
  Server, Exchange, Command, run, finish, call, connect, query, as_unit, as_texts, zrange, seen,
}
use denim.Redis.Documented.{View, documented, IsDocumented, run-documented, update, members}
use denim.Redis.Entries.{Base64, object_decode, decode_value}
use denim.Redis.Entries.RoundTrip.{IsBase64, split-entry}
use denim.Redis.Queue.{Entry, Stores, Holds, AreApart, stored, entry_text}
use denim.Redis.Queue.Dequeue.{run->>=, del}
use denim.Redis.Queue.Lookup.{text_eqb_self}
use denim.Redis.Queue.Page.{Reads, guids, texts, remove-front}
use denim.Messages.{Database, server_guid}
use denim.Messages.Persister.{message_batch_limit}

-- The database stores the messages for a device that it has behind those that wait there, apart from
-- Redis, and does not fail. A device that it does not have has no inbox.
pub record IsInbox {S : Type 0} (execute : Server S) (view : S → View) (db : Database S)
    (inbox : S → ProtocolAddress → Option (List Envelope)) : Type 0 where
  pub push-appends :
      (a : ProtocolAddress) (ms old : List Envelope) (s : S)
      → inbox s a ≡ some old
      → Ends
          (db.push_message_queue a ms s)
          λ _ s'. (inbox s' a ≡ some (old ++ ms)) × (view s' ≡ view s)
  pub execute-keeps : (c : Command) (s : S) → inbox (execute c s).1 ≡ inbox s

-- The envelopes carry the guids of the entries.
abbrev pub Named : List Entry → List Envelope → Type 0
Named [] [] = Unit {0}
Named (e ∷ q) (x ∷ xs) = (server_guid x ≡ e.guid) × Named q xs
Named _ _ = ⊥

pub Named-guids : (q : List Entry) (xs : List Envelope) → Named q xs → map server_guid xs ≡ guids q
Named-guids [] [] n = refl
Named-guids [] (x ∷ xs) n = absurd n
Named-guids (e ∷ q) [] n = absurd n
Named-guids (e ∷ q) (x ∷ xs) n = ground (arith, Named-guids q xs n.1)

pub Named-take :
    (n : ℕ) (q : List Entry) (xs : List Envelope) → Named q xs → Named (take n q) (take n xs)
Named-take zero q xs h = tt
Named-take (suc n) [] [] h = tt
Named-take (suc n) [] (x ∷ xs) h = absurd h
Named-take (suc n) (e ∷ q) [] h = absurd h
Named-take (suc n) (e ∷ q) (x ∷ xs) h = (h.0, Named-take n q xs h.1)

pub Named-drop :
    (n : ℕ) (q : List Entry) (xs : List Envelope) → Named q xs → Named (drop n q) (drop n xs)
Named-drop zero q xs h = h
Named-drop (suc n) [] [] h = tt
Named-drop (suc n) [] (x ∷ xs) h = absurd h
Named-drop (suc n) (e ∷ q) [] h = absurd h
Named-drop (suc n) (e ∷ q) (x ∷ xs) h = Named-drop n q xs h.1

module _ {T : Type 0} (deserialize : List ℕ → Run T) where
  pub Reads-take :
      (n : ℕ) (q : List Entry) (xs : List T)
      → Reads deserialize q xs
      → Reads deserialize (take n q) (take n xs)
  Reads-take zero q xs h = tt
  Reads-take (suc n) [] [] h = tt
  Reads-take (suc n) [] (x ∷ xs) h = absurd h
  Reads-take (suc n) (e ∷ q) [] h = absurd h
  Reads-take (suc n) (e ∷ q) (x ∷ xs) h = (h.0, Reads-take n q xs h.1)

  pub Reads-drop :
      (n : ℕ) (q : List Entry) (xs : List T)
      → Reads deserialize q xs
      → Reads deserialize (drop n q) (drop n xs)
  Reads-drop zero q xs h = h
  Reads-drop (suc n) [] [] h = tt
  Reads-drop (suc n) [] (x ∷ xs) h = absurd h
  Reads-drop (suc n) (e ∷ q) [] h = absurd h
  Reads-drop (suc n) (e ∷ q) (x ∷ xs) h = Reads-drop n q xs h.1

module _ {S : Type 0} (execute : Server S) (view : S → View) (doc : IsDocumented execute view)
    (inbox : S → ProtocolAddress → Option (List Envelope))
    (keeps : (c : Command) (s : S) → inbox (execute c s).1 ≡ inbox s) where
  run-keeps : {A : Type 0} (p : Exchange A) (s : S) → inbox (run execute p s).1 ≡ inbox s
  run-keeps (finish r) s = refl
  run-keeps (call c k) s = run-keeps (k (seen c (execute c s).0)) (execute c s).1 ∙ keeps c s

  ended :
      {A : Type 0} (r : Run A × S) (a : A) (v : View) (s : S)
      → r.0 ≡ ok a
      → view r.1 ≡ v
      → inbox r.1 ≡ inbox s
      → Ends r λ b s'. (b ≡ a) × (view s' ≡ v) × (inbox s' ≡ inbox s)
  ended (ok b, t) a v s e l k = let same : b ≡ a = cc in (same, l, k)
  ended (err x, t) a v s e l k = cc
  ended (panic, t) a v s e l k = cc
  ended (out_of_fuel, t) a v s e l k = cc

  -- An exchange whose end with the documented server is known.
  pub exchange-Ends :
      {A : Type 0} (p : Exchange A) (s : S) (a : A) (v : View)
      → run documented p (view s) ≡ (ok a, v)
      → Ends (run execute p s) λ b s'. (b ≡ a) × (view s' ≡ v) × (inbox s' ≡ inbox s)
  exchange-Ends p s a v e =
      let (same, left) = run-documented execute view doc p s in
      ended (run execute p s) a v s (same ∙ ap (λ r. r.0) e) (left ∙ ap (λ r. r.1) e)
        (run-keeps p s)

connect_lem : (v : View) → run documented (query as_unit connect) v ≡ (ok tt, v)
unfolding documented
connect_lem v = refl

abbrev pub batch : ℕ
batch = suc message_batch_limit

-- Two parts of the messages, stored one after the other.
pub gathered :
    (later now first xs : List Envelope)
    → later ≡ now ++ take batch xs
    → now ≡ first
    → later ++ drop batch xs ≡ first ++ xs
gathered later now first xs e f =
    rw (e, f)
      (append_assoc first (take batch xs) (drop batch xs)
        ∙ ap (λ l. first ++ l) (take-append-drop batch xs))

pub keys_of-AreApart : (a : ProtocolAddress) → AreApart (keys_of a)
unfolding cache.get_message_queue_key
keys_of-AreApart a = record { index_apart = refl }

module _ (base64 : Base64) (law : IsBase64 base64) (bincode : Bincode Envelope)
    (a : ProtocolAddress) where
  decode_texts :
      (q : List Entry) (xs : List Envelope)
      → Reads bincode.deserialize q xs
      → object_decode base64 bincode.deserialize (texts base64 law (keys_of a) q) ≡ ok xs
  unfolding object_decode decode_value
  decode_texts [] [] r = refl
  decode_texts [] (x ∷ xs) r = absurd r
  decode_texts (e ∷ q) [] r = absurd r
  decode_texts (e ∷ q) (x ∷ xs) r =
      rw
        (
          split-entry base64 law e.id e.value e.order,
          law.decode-encode e.value,
          r.0,
          decode_texts q xs r.1,
        )
        refl

  members-take :
      (n : ℕ) (q : List Entry)
      → members (take n (stored base64 (keys_of a) q)) ≡ texts base64 law (keys_of a) (take n q)
  members-take zero q = refl
  members-take (suc n) [] = refl
  members-take (suc n) (e ∷ q) = ap (◌∷◌ (entry_text base64 (keys_of a) e)) (members-take n q)

  first_batch :
      (q : List Entry) (v : View)
      → Stores base64 (keys_of a) q v
      → run documented
          (query as_texts (zrange (cache.get_message_queue_key a) 0 message_batch_limit))
          v
        ≡ (ok (texts base64 law (keys_of a) (take batch q)), v)
  unfolding documented
  first_batch q v h = rw h.entries (ap (λ ts. (ok ts, v)) (members-take batch q))

  -- What `get_messages_to_persist` gives: one more message than its limit.
  pub get_messages_to_persist-batch :
      (q : List Entry) (xs : List Envelope) (v : View)
      → Stores base64 (keys_of a) q v
      → Reads bincode.deserialize q xs
      → run documented (cache.get_messages_to_persist base64 bincode a message_batch_limit) v
        ≡ (ok (take batch xs), v)
  unfolding cache.get_messages_to_persist
  get_messages_to_persist-batch q xs v h r =
      run->>= documented (query as_unit connect) _ v v tt (connect_lem v)
      ∙ run->>= documented
          (query as_texts (zrange (cache.get_message_queue_key a) 0 message_batch_limit)) _ v v
          (texts base64 law (keys_of a) (take batch q)) (first_batch q v h)
      ∙ rw
          (decode_texts (take batch q) (take batch xs)
            (Reads-take bincode.deserialize batch q xs r))
          refl

  -- What `remove` does for the guids of a batch.
  pub remove-batch :
      (p q : List Entry) (xs : List Envelope) (v : View)
      → Stores base64 (keys_of a) (p ++ q) v
      → Reads bincode.deserialize p xs
      → (v' : View) × (run documented (cache.remove base64 bincode a (guids p)) v ≡ (ok xs, v'))
        × Stores base64 (keys_of a) q v'
  unfolding cache.remove
  remove-batch p q xs v h r =
      let (v', removed, holds, _) =
        remove-front base64 law (keys_of a) bincode.deserialize p q xs v (keys_of-AreApart a) h r in
      (v', run->>= documented (query as_unit connect) _ v v tt (connect_lem v) ∙ removed, holds)

  abbrev pub locked : View → View
  locked v = record v { strings = update v.strings (keys_of a).lock (some (codes "1")) }

  pub lock_lem :
      (v : View)
      → run documented (cache.lock_queue_for_persistence base64 bincode a) v ≡ (ok tt, locked v)
  unfolding cache.lock_queue_for_persistence documented
  lock_lem v = refl

  pub unlock_lem :
      (v : View)
      → run documented (cache.unlock_queue_for_persistence base64 bincode a) v
        ≡ (ok tt, del base64 law (keys_of a) v (keys_of a).lock)
  unfolding cache.unlock_queue_for_persistence documented
  unlock_lem v = refl

  pub Stores-locked :
      (q : List Entry) (v : View)
      → Stores base64 (keys_of a) q v
      → Stores base64 (keys_of a) q (locked v)
  Stores-locked q v h = record {
    count = h.count;
    entries = h.entries;
    tracked = h.tracked;
    counted = h.counted;
    rises = h.rises;
    bounded = h.bounded;
  }

  lock_apart : text_eqb (keys_of a).lock (keys_of a).metadata ≡ false
  unfolding cache.get_persist_in_progress_key cache.get_message_queue_metadata_key
  lock_apart = refl

  pub Holds-unlocked :
      (v : View)
      → Stores base64 (keys_of a) [] v
      → Holds base64 (keys_of a) [] (del base64 law (keys_of a) v (keys_of a).lock)
  Holds-unlocked v h = record {
    stores = record {
      count = h.count;
      entries = ground (arith, h.entries);
      tracked = tt;
      counted = rw lock_apart h.counted;
      rises = h.rises;
      bounded = h.bounded;
    };
    unlocked = rw (text_eqb_self (keys_of a).lock) refl;
  }
