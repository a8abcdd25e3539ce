-- ===== src/Messages/Persister/Moves.antt =====
-- `persist_queue` moves a queue of messages to the database.
use denim.Prelude.{
  ℕ, zero, suc, ◌<◌, ◌≡◌, ap, sym, ◌∙◌, String, List, [], ◌∷◌, ◌++◌, map, length, take, drop,
  take-append-drop, length-drop, append-nil, refl, Option, some, arith, ok,
}
use denim.Prelude.Effects.{Ends, Ends-map, go_on-Ends}
use denim.Account.{ProtocolAddress}
use denim.WebApi.{Envelope}
use denim.Caches.Chunks.{Bincode}
use denim.Caches.Messages as cache
use denim.Caches.Messages.{keys_of}
use denim.Redis.{Server, run}
use denim.Redis.Documented.{View, documented, IsDocumented}
use denim.Redis.Entries.{Base64}
use denim.Redis.Entries.RoundTrip.{IsBase64}
use denim.Redis.Queue.{Entry, Stores, Holds}
use denim.Redis.Queue.Dequeue.{del}
use denim.Redis.Queue.Page.{Reads}
use denim.Messages.{Database, server_guid, persist_messages}
use denim.Messages.Persister.{persist_loop, persist_queue, message_batch_limit}
use denim.Messages.Persister.Batches.{
  IsInbox, Named, Named-guids, Named-take, Named-drop, Reads-take, Reads-drop, exchange-Ends,
  gathered, batch, get_messages_to_persist-batch, remove-batch, locked, lock_lem, unlock_lem,
  Stores-locked, Holds-unlocked,
}

module _ (base64 : Base64) (law : IsBase64 base64) (bincode : Bincode Envelope)
    (a : ProtocolAddress) where
  module _ {S : Type 0} (execute : Server S) (view : S → View) (db : Database S)
      (inbox : S → ProtocolAddress → Option (List Envelope)) (doc : IsDocumented execute view)
      (law_db : IsInbox execute view db inbox) where
    -- One batch goes to the database and leaves the cache.
    persist_messages-batch :
        (p q : List Entry) (xs old : List Envelope) (s : S)
        → inbox s a ≡ some old
        → Stores base64 (keys_of a) (p ++ q) (view s)
        → Reads bincode.deserialize p xs
        → Named p xs
        → Ends
            (persist_messages execute db base64 bincode a xs s)
            λ _ s'. (inbox s' a ≡ some (old ++ xs)) × Stores base64 (keys_of a) q (view s')
    unfolding persist_messages
    persist_messages-batch p q xs old s known h r n =
        go_on-Ends {E = String} {A = Unit {0}} {B = ℕ} (db.push_message_queue a xs s) _ _ _
          (law_db.push-appends a xs old s known)
          λ _ t (stored_in, same).
            let (v', removed, holds) = remove-batch base64 law bincode a p q xs (view s) h r in
            let removed_t : run documented (cache.remove base64 bincode a (map server_guid xs))
                  (view t)
                ≡ (ok xs, v') =
              rw (same, Named-guids p xs n) removed in
            go_on-Ends {E = String} {A = List Envelope} {B = ℕ}
              (run execute (cache.remove base64 bincode a (map server_guid xs)) t) _ _ _
              (exchange-Ends execute view doc inbox law_db.execute-keeps
                (cache.remove base64 bincode a (map server_guid xs)) t xs v' removed_t)
              λ _ t' (_, left, kept). (ap (λ i. i a) kept ∙ stored_in, rw left holds)

    persist_loop-moves :
        (fuel : ℕ) (q : List Entry) (xs old : List Envelope) (s : S)
        → inbox s a ≡ some old
        → Stores base64 (keys_of a) q (view s)
        → Reads bincode.deserialize q xs
        → Named q xs
        → length q < fuel
        → Ends
            (persist_loop execute db base64 bincode fuel a s)
            λ _ s'. (inbox s' a ≡ some (old ++ xs)) × Stores base64 (keys_of a) [] (view s')
    unfolding persist_loop
    persist_loop-moves zero q xs old s known h r n f = absurd (omega arith)
    persist_loop-moves (suc fuel) [] [] old s known h r n f =
        go_on-Ends {E = String} {A = List Envelope} {B = Unit {0}}
          (run execute (cache.get_messages_to_persist base64 bincode a message_batch_limit) s) _ _ _
          (exchange-Ends execute view doc inbox law_db.execute-keeps
            (cache.get_messages_to_persist base64 bincode a message_batch_limit) s [] (view s)
            (get_messages_to_persist-batch base64 law bincode a [] [] (view s) h r))
          λ ms t (same, left, kept).
            rw same (ap (λ i. i a) kept ∙ known ∙ ap some (sym (append-nil old)), rw left h)
    persist_loop-moves (suc fuel) [] (x ∷ xs) old s known h r n f = absurd r
    persist_loop-moves (suc fuel) (e ∷ q) [] old s known h r n f = absurd r
    persist_loop-moves (suc fuel) (e ∷ q) (x ∷ xs) old s known h r n f =
        go_on-Ends {E = String} {A = List Envelope} {B = Unit {0}}
          (run execute (cache.get_messages_to_persist base64 bincode a message_batch_limit) s) _ _ _
          (exchange-Ends execute view doc inbox law_db.execute-keeps
            (cache.get_messages_to_persist base64 bincode a message_batch_limit) s
            (take batch (x ∷ xs)) (view s)
            (get_messages_to_persist-batch base64 law bincode a (e ∷ q) (x ∷ xs) (view s) h r))
          λ ms t (same, left, kept). rw same (
            go_on-Ends {E = String} {A = ℕ} {B = Unit {0}}
              (persist_messages execute db base64 bincode a (take batch (x ∷ xs)) t) _ _ _
              (persist_messages-batch (take batch (e ∷ q)) (drop batch (e ∷ q))
                (take batch (x ∷ xs)) old t (ap (λ i. i a) kept ∙ known)
                (rw (left, take-append-drop batch (e ∷ q)) h)
                (Reads-take bincode.deserialize batch (e ∷ q) (x ∷ xs) r)
                (Named-take batch (e ∷ q) (x ∷ xs) n))
              λ _ t' (stored_in, holds).
                Ends-map {E = String} {A = Unit {0}}
                  (persist_loop execute db base64 bincode fuel a t') _ _
                  (persist_loop-moves fuel (drop batch (e ∷ q)) (drop batch (x ∷ xs))
                    (old ++ take batch (x ∷ xs)) t' stored_in holds
                    (Reads-drop bincode.deserialize batch (e ∷ q) (x ∷ xs) r)
                    (Named-drop batch (e ∷ q) (x ∷ xs) n)
                    (omega (arith, length-drop batch (e ∷ q))))
                  λ _ t'' (more, empty). (
                    more
                        ∙ ap some
                            (gathered (old ++ take batch (x ∷ xs)) old old (x ∷ xs) refl refl),
                    empty,
                  ))

    -- `persist_queue` ends, with the whole queue of a device, any number of batches long, moved to the
    -- database in order, the cache empty and the queue unlocked; given one round for each message and
    -- one more. The store holds the queue, its entries encode the messages, which carry the guids of
    -- the entries; the server answers as documented, and the database, which has the device, stores what it is
    -- given.
    pub persist_queue-moves :
        (fuel : ℕ) (q : List Entry) (xs old : List Envelope) (s : S)
        → inbox s a ≡ some old
        → Stores base64 (keys_of a) q (view s)
        → Reads bincode.deserialize q xs
        → Named q xs
        → length q < fuel
        → Ends
            (persist_queue execute db base64 bincode fuel a s)
            λ _ s'. (inbox s' a ≡ some (old ++ xs)) × Holds base64 (keys_of a) [] (view s')
    unfolding persist_queue
    persist_queue-moves fuel q xs old s known h r n f =
        go_on-Ends {E = String} {A = Unit {0}} {B = Unit {0}}
          (run execute (cache.lock_queue_for_persistence base64 bincode a) s) _ _ _
          (exchange-Ends execute view doc inbox law_db.execute-keeps
            (cache.lock_queue_for_persistence base64 bincode a) s tt
            (locked base64 law bincode a (view s)) (lock_lem base64 law bincode a (view s)))
          λ _ t (_, left, kept).
            go_on-Ends {E = String} {A = Unit {0}} {B = Unit {0}}
              (persist_loop execute db base64 bincode fuel a t) _ _ _
              (persist_loop-moves fuel q xs old t (ap (λ i. i a) kept ∙ known)
                (rw left (Stores-locked base64 law bincode a q (view s) h)) r n f)
              λ _ t' (moved, empty).
                Ends-map {E = String} {A = Unit {0}}
                  (run execute (cache.unlock_queue_for_persistence base64 bincode a) t') _ _
                  (exchange-Ends execute view doc inbox law_db.execute-keeps
                    (cache.unlock_queue_for_persistence base64 bincode a) t' tt
                    (del base64 law (keys_of a) (view t') (keys_of a).lock)
                    (unlock_lem base64 law bincode a (view t')))
                  λ _ t'' (_, left', kept'). (
                    ap (λ i. i a) kept' ∙ moved,
                    rw left' (Holds-unlocked base64 law bincode a (view t') empty),
                  )
