-- ===== src/Redis/Queue/Inserted.antt =====
-- A store that holds a queue holds the longer one after `insert`.
use denim.Prelude.{
  ℕ, ◌+◌, ◌<◌, ◌≡◌, refl, sym, ap, ◌∙◌, false, some, none, List, [], ◌∷◌, ◌++◌, arith, ok, inl,
}
use denim.Prelude.Effects.{Ends}
use denim.Text.{Text, text_eqb, decimal}
use denim.Text.Decimal.{decimal-injective}
use denim.Redis.{Server, run, ◌>>=◌, return, Exchange}
use denim.Redis.Documented.{
  View, documented, IsDocumented, Ends-documented, run-documented, update, exact_max,
}
use denim.Redis.Entries.{Base64}
use denim.Redis.Entries.RoundTrip.{IsBase64}
use denim.Redis.Operations.{Keys, rev, counter, insert}
use denim.Redis.Queue.{Entry, Rises, Apart, Hashes, Holds, Stores, Tracked, AreApart}
use denim.Redis.Queue.Lookup.{text_eqb_self, text_eqb_ne, text_eqb_sym, rev_apart, Rises-le}
use denim.Redis.Queue.Dequeue.{run->>=}
use denim.Redis.Queue.Insert.{new_entry, after_insert, insert-new, insert-known}

module _ (base64 : Base64) (law : IsBase64 base64) (keys : Keys) where
  abbrev inserted : Hashes → ℕ → Text → Hashes
  inserted hashes id guid =
      let a : Hashes =
        update hashes keys.metadata (update (hashes keys.metadata) counter (some (decimal id))) in
      let b : Hashes = update a keys.metadata (update (a keys.metadata) guid (some (decimal id))) in
      update b (rev keys.metadata) (update (b (rev keys.metadata)) (decimal id) (some guid))

  -- The hashes at the guid of an older entry, and at its identifier.
  inserted_guid :
      (hashes : Hashes) (id : ℕ) (guid other : Text)
      → text_eqb other counter ≡ false
      → text_eqb other guid ≡ false
      → inserted hashes id guid keys.metadata other ≡ hashes keys.metadata other
  inserted_guid hashes id guid other h k =
      let (apart, apart') = rev_apart keys.metadata in
      ground (
        arith,
        apart,
        apart',
        text_eqb_self keys.metadata,
        text_eqb_sym other counter,
        text_eqb_sym other guid,
      )

  inserted_id :
      (hashes : Hashes) (id : ℕ) (guid : Text) (other : ℕ)
      → other < id
      → inserted hashes id guid (rev keys.metadata) (decimal other)
        ≡ hashes (rev keys.metadata) (decimal other)
  inserted_id hashes id guid other h =
      let (apart, apart') = rev_apart keys.metadata in
      let differ =
        text_eqb_ne (decimal id) (decimal other)
          λ e. let same = decimal-injective id other e in omega arith in
      ground (arith, apart, apart', text_eqb_self (rev keys.metadata), differ)

  inserted_own_guid :
      (hashes : Hashes) (id : ℕ) (guid : Text)
      → text_eqb guid counter ≡ false
      → inserted hashes id guid keys.metadata guid ≡ some (decimal id)
  inserted_own_guid hashes id guid h =
      let (apart, apart') = rev_apart keys.metadata in
      ground (arith, apart', text_eqb_self keys.metadata, text_eqb_self guid)

  inserted_own_id :
      (hashes : Hashes) (id : ℕ) (guid : Text)
      → inserted hashes id guid (rev keys.metadata) (decimal id) ≡ some guid
  inserted_own_id hashes id guid =
      ground (arith, text_eqb_self (rev keys.metadata), text_eqb_self (decimal id))

  Apart-append :
      (guid other : Text) (e : Entry) (q : List Entry)
      → text_eqb guid other ≡ false
      → e.guid ≡ other
      → Apart guid q
      → Apart guid (q ++ e ∷ [])
  Apart-append guid other e [] h k a = (rw k h, tt)
  Apart-append guid other e (f ∷ q) h k a = (a.0, Apart-append guid other e q h k a.1)

  Tracked-inserted :
      (hashes : Hashes) (id : ℕ) (guid : Text) (value : List ℕ) (lo hi : ℕ) (q : List Entry)
      → hi < id
      → Rises lo hi q
      → text_eqb guid counter ≡ false
      → Apart guid q
      → Tracked base64 keys hashes q
      → Tracked base64 keys
          (inserted hashes id guid)
          (q ++ new_entry base64 law keys id guid value ∷ [])
  Tracked-inserted hashes id guid value lo hi [] l r n a t = (
    record {
      id_of = inserted_own_guid hashes id guid n;
      guid_of = inserted_own_id hashes id guid;
      no_counter = n;
      small = omega arith;
    },
    tt,
    tt,
  )
  Tracked-inserted hashes id guid value lo hi (e ∷ q) l r n a t = (
    record {
      id_of =
          inserted_guid hashes id guid e.guid t.0.no_counter (text_eqb_sym e.guid guid ∙ a.0)
          ∙ t.0.id_of;
      guid_of =
          inserted_id hashes id guid e.id (let below = Rises-le e.id hi q r.1 in omega arith)
          ∙ t.0.guid_of;
      no_counter = t.0.no_counter;
      small = t.0.small;
    },
    Apart-append e.guid guid (new_entry base64 law keys id guid value) q
        (text_eqb_sym e.guid guid ∙ a.0) refl t.1,
    Tracked-inserted hashes id guid value e.id hi q l r.1 n a.1 t.2,
  )

  counter_inserted :
      (hashes : Hashes) (id : ℕ) (guid : Text)
      → text_eqb guid counter ≡ false
      → inserted hashes id guid keys.metadata counter ≡ some (decimal id)
  counter_inserted hashes id guid h =
      let (apart, apart') = rev_apart keys.metadata in
      ground (arith, apart', text_eqb_self keys.metadata, text_eqb_self counter)

  Rises-append :
      (lo hi : ℕ) (guid : Text) (value : List ℕ) (q : List Entry)
      → Rises lo hi q
      → Rises lo (hi + 1) (q ++ new_entry base64 law keys (hi + 1) guid value ∷ [])
  Rises-append lo hi guid value [] r = (omega arith, omega arith)
  Rises-append lo hi guid value (e ∷ q) r = (r.0, Rises-append e.id hi guid value q r.1)

  pub Stores-inserted :
      (time : ℕ) (q : List Entry) (guid : Text) (value : List ℕ) (v : View)
      → AreApart keys
      → (h : Stores base64 keys q v) → h.count < exact_max
      → text_eqb guid counter ≡ false
      → Apart guid q
      → Stores base64 keys
          (q ++ new_entry base64 law keys (h.count + 1) guid value ∷ [])
          (after_insert base64 law keys time (h.count + 1) q guid value v)
  Stores-inserted time q guid value v apart h small n a = record {
    count = h.count + 1;
    entries = ground (arith, apart.index_apart, text_eqb_self keys.queue);
    tracked =
        Tracked-inserted v.hashes (h.count + 1) guid value 0 h.count q (omega arith) h.rises n a
          h.tracked;
    counted = inl (counter_inserted v.hashes (h.count + 1) guid n);
    rises = Rises-append 0 h.count guid value q h.rises;
    bounded = omega arith;
  }

  abbrev pub insert_twice : ℕ → ℕ → Text → List ℕ → List ℕ → Exchange (ℕ × ℕ)
  insert_twice time time' guid value value' = do
    id ← insert base64 keys (ok time) guid value
    id' ← insert base64 keys (ok time') guid value'
    return (id, id')

  insert_twice-documented :
      (time time' : ℕ) (q : List Entry) (guid : Text) (value value' : List ℕ) (v : View)
      (h : Stores base64 keys q v)
      → h.count < exact_max
      → text_eqb guid counter ≡ false
      → v.hashes keys.metadata guid ≡ none
      → run documented (insert_twice time time' guid value value') v ≡ (
        ok (h.count + 1, h.count + 1),
        after_insert base64 law keys time (h.count + 1) q guid value v,
      )
  insert_twice-documented time time' q guid value value' v h small n new =
      let w : View = after_insert base64 law keys time (h.count + 1) q guid value v in
      let known : w.hashes keys.metadata guid ≡ some (decimal (h.count + 1)) =
        inserted_own_guid v.hashes (h.count + 1) guid n in
      run->>= documented (insert base64 keys (ok time) guid value) _ v w (h.count + 1)
        (insert-new base64 law keys time q guid value v h small new)
      ∙ run->>= documented (insert base64 keys (ok time') guid value')
          (λ id'. return (h.count + 1, id')) w w (h.count + 1)
          (insert-known base64 law keys (ok time') (h.count + 1) guid value' w known (omega arith))

  -- Inserting a value under a new guid puts it behind the queue, with the next identifier; inserting
  -- anything under the same guid again gives the same identifier and leaves all that is stored as it was. The server
  -- answers as documented, the keys are apart, the clock works, and the counter is below 2^53, up to which scores are exact.
  pub insert-again :
      {S : Type 0} (execute : Server S) (view : S → View) (time time' : ℕ) (q : List Entry)
      (guid : Text) (value value' : List ℕ) (s : S)
      → IsDocumented execute view
      → AreApart keys
      → (h : Holds base64 keys q (view s)) → h.stores.count < exact_max
      → text_eqb guid counter ≡ false
      → Apart guid q
      → (view s).hashes keys.metadata guid ≡ none
      → Ends (run execute (insert_twice time time' guid value value') s) λ r s'.
        (r ≡ (h.stores.count + 1, h.stores.count + 1))
        × Holds base64 keys
            (q ++ new_entry base64 law keys (h.stores.count + 1) guid value ∷ [])
            (view s')
        × (view s' ≡ view (run execute (insert base64 keys (ok time) guid value) s).1)
  insert-again execute view time time' q guid value value' s doc apart h small n a new =
      let w : View = after_insert base64 law keys time (h.stores.count + 1) q guid value (view s) in
      let once : view (run execute (insert base64 keys (ok time) guid value) s).1 ≡ w =
        (run-documented execute view doc (insert base64 keys (ok time) guid value) s).1
        ∙ ap (λ r. r.1)
            (insert-new base64 law keys time q guid value (view s) h.stores small new) in
      Ends-documented execute view doc (insert_twice time time' guid value value')
        (λ r v.
          (r ≡ (h.stores.count + 1, h.stores.count + 1))
          × Holds base64 keys (q ++ new_entry base64 law keys (h.stores.count + 1) guid value ∷ [])
              v
          × (v ≡ view (run execute (insert base64 keys (ok time) guid value) s).1))
        s
        (rw (insert_twice-documented time time' q guid value value' (view s) h.stores small n new) (
          refl,
          record {
            stores = Stores-inserted time q guid value (view s) apart h.stores small n a;
            unlocked = h.unlocked;
          },
          sym once,
        ))
