-- ===== src/Caches/Chunks/Page.antt =====
-- What a call of `dequeue_incoming_chunks` or `dequeue_outgoing_chunks` takes.
use denim.Prelude.{
  ◌≡◌, refl, sym, ◌∙◌, ap, negsuc, List, [], ◌∷◌, ◌++◌, take, drop, take-append-drop, ok,
}
use denim.Prelude.Effects.{Ends}
use denim.Account.{ProtocolAddress}
use denim.Chunk.Types.{DenimChunk}
use denim.DenimManager.Buffers.{Buffer, sender, receiver}
use denim.Redis.{Server, run, connect, query, as_unit}
use denim.Redis.Documented.{View, documented, IsDocumented, Ends-documented}
use denim.Redis.Entries.{Base64}
use denim.Redis.Entries.RoundTrip.{IsBase64}
use denim.Redis.Operations as redis
use denim.Redis.Operations.{page_size}
use denim.Redis.Queue.{Entry, Holds, AreApart}
use denim.Redis.Queue.Dequeue.{run->>=}
use denim.Redis.Queue.Page.{Reads, guids, texts, get_values-page, remove-front}
use denim.Caches.Chunks.{
  Bincode, keys_of, remove, dequeue_chunks, get_queue_key, get_queue_index_key,
}

pub keys_of-AreApart : (a : ProtocolAddress) (b : Buffer) → AreApart (keys_of a b)
unfolding get_queue_key get_queue_index_key
keys_of-AreApart a sender = record { index_apart = refl }
keys_of-AreApart a receiver = record { index_apart = refl }

connect_lem : (v : View) → run documented (query as_unit connect) v ≡ (ok tt, v)
unfolding documented
connect_lem v = refl

module _ (base64 : Base64) (law : IsBase64 base64) (bincode : Bincode DenimChunk) where
  get_values-front :
      (a : ProtocolAddress) (b : Buffer) (p q : List Entry) (v : View)
      → p ≡ take page_size (p ++ q)
      → Holds base64 (keys_of a b) (p ++ q) v
      → run documented (redis.get_values base64 (keys_of a b) (negsuc 0)) v
        ≡ (ok (texts base64 law (keys_of a b) p, guids p), v)
  get_values-front a b p q v page h =
      get_values-page base64 law (keys_of a b) (p ++ q) v h
      ∙ ap (λ r. (ok (texts base64 law (keys_of a b) r, guids r), v)) (sym page)

  -- The two cases of a page.
  dequeue-front :
      (a : ProtocolAddress) (b : Buffer) (p q : List Entry) (xs : List DenimChunk) (v : View)
      → p ≡ take page_size (p ++ q)
      → Holds base64 (keys_of a b) (p ++ q) v
      → Reads bincode.deserialize p xs
      → (v' : View) × (run documented (dequeue_chunks base64 bincode a b) v ≡ (ok xs, v'))
        × Holds base64 (keys_of a b) q v'
  unfolding dequeue_chunks remove
  dequeue-front a b [] q [] v page h read = (
    v,
    run->>= documented (query as_unit connect) _ v v tt (connect_lem v)
        ∙ run->>= documented (redis.get_values base64 (keys_of a b) (negsuc 0)) _ v v ([], [])
            (get_values-front a b [] q v page h),
    h,
  )
  dequeue-front a b [] q (x ∷ xs) v page h read = absurd read
  dequeue-front a b (e ∷ p) q [] v page h read = absurd read
  dequeue-front a b (e ∷ p) q (x ∷ xs) v page h read =
      let keys = keys_of a b in
      let (v', removed, holds, open_still) =
        remove-front base64 law keys bincode.deserialize (e ∷ p) q (x ∷ xs) v (keys_of-AreApart a b)
          h.stores read in
      (
        v',
        run->>= documented (query as_unit connect) _ v v tt (connect_lem v)
            ∙ run->>= documented (redis.get_values base64 keys (negsuc 0)) _ v v
                (texts base64 law keys (e ∷ p), guids (e ∷ p))
                (get_values-front a b (e ∷ p) q v page h)
            ∙ run->>= documented (query as_unit connect) _ v v tt (connect_lem v)
            ∙ removed,
        record { stores = holds; unlocked = open_still keys.lock h.unlocked },
      )

  -- A dequeue of the sender's or the receiver's buffer gives the chunks of the first hundred entries,
  -- in order, and leaves the others in the store; if the store holds the queue, these entries encode
  -- the chunks, and the server answers as documented.
  pub dequeue_chunks-page :
      {S : Type 0} (execute : Server S) (view : S → View) (a : ProtocolAddress) (b : Buffer)
      (q : List Entry) (xs : List DenimChunk) (s : S)
      → IsDocumented execute view
      → Holds base64 (keys_of a b) q (view s)
      → Reads bincode.deserialize (take page_size q) xs
      → Ends
          (run execute (dequeue_chunks base64 bincode a b) s)
          λ cs s'. (cs ≡ xs) × Holds base64 (keys_of a b) (drop page_size q) (view s')
  dequeue_chunks-page execute view a b q xs s doc h read =
      let whole : take page_size q ++ drop page_size q ≡ q = take-append-drop page_size q in
      let (v', taken, holds) =
        dequeue-front a b (take page_size q) (drop page_size q) xs (view s)
          (ap (take page_size) (sym whole)) (rw whole h) read in
      Ends-documented execute view doc (dequeue_chunks base64 bincode a b)
        (λ cs v. (cs ≡ xs) × Holds base64 (keys_of a b) (drop page_size q) v) s
        (rw taken (refl, holds))
