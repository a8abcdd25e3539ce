-- ===== src/Redis/Queue/Takes.antt =====
-- `dequeue_bytes` on a store that holds a queue.
use denim.Prelude.{
  ℕ, ◌≤◌, ◌<◌, ◌≡◌, refl, ◌∙◌, pos, pred_ℤ, false, none, List, [], ◌∷◌, length, length-take, take,
  drop, arith, ok, inl, inr, ltb, ltb→lt, Bool-cases,
}
use denim.Prelude.Effects.{Ends}
use denim.Text.{Text, text_eqb, decimal}
use denim.Text.Decimal.{decimal-injective}
use denim.Redis.{Server, run, get_key, zrange, nil, array}
use denim.Chunk.Types.{to_i32}
use denim.Redis.Documented.{View, documented, IsDocumented, Ends-documented, update, members}
use denim.Redis.Entries.{Base64, bytes_decode}
use denim.Redis.Entries.RoundTrip.{IsBase64, create_payload_entry-parts}
use denim.Redis.Operations.{Keys, rev, counter, dequeue_bytes, get_first}
use denim.Redis.Queue.{
  Entry, take_from, Rises, Apart, Hashes, Holds, Stores, Tracked, stored, FitsI32, AreApart,
}
use denim.Redis.Queue.Lookup.{text_eqb_self, text_eqb_ne, rev_apart}
use denim.Redis.Queue.Dequeue.{
  after_part, after_remove, dropped, take_part-stored, take_whole-stored, id_fits, FitsI32→FitsI64,
}

-- The order of the first entry can be decremented.
abbrev pub HasOrders : List Entry → Type 0
HasOrders [] = Unit {0}
HasOrders (e ∷ q) = FitsI32 (pred_ℤ e.order)

module _ (base64 : Base64) (law : IsBase64 base64) (keys : Keys) where
  Stores-part :
      (n : ℕ) (e : Entry) (q : List Entry) (v : View)
      → Stores base64 keys (e ∷ q) v
      → FitsI32 (pred_ℤ e.order)
      → Stores base64 keys
          (record e { value = drop n e.value; order = pred_ℤ e.order } ∷ q)
          (after_part base64 law keys n e q v)
  Stores-part n e q v h small = record {
    count = h.count;
    entries = rw (text_eqb_self keys.queue) refl;
    tracked = (
      record {
        id_of = h.tracked.0.id_of;
        guid_of = h.tracked.0.guid_of;
        no_counter = h.tracked.0.no_counter;
        small = small;
      },
      h.tracked.1,
      h.tracked.2,
    );
    counted = h.counted;
    rises = h.rises;
    bounded = h.bounded;
  }

  -- The hashes after the first entry is removed.
  abbrev forgotten : Hashes → ℕ → Text → Hashes
  forgotten hashes id guid =
      let without_guid : Hashes =
        update hashes keys.metadata (update (hashes keys.metadata) guid none) in
      update without_guid (rev keys.metadata)
        (update (without_guid (rev keys.metadata)) (decimal id) none)

  forgotten_guid :
      (hashes : Hashes) (id : ℕ) (guid : Text) (other : Text)
      → text_eqb guid other ≡ false
      → forgotten hashes id guid keys.metadata other ≡ hashes keys.metadata other
  forgotten_guid hashes id guid other h =
      let (apart, apart') = rev_apart keys.metadata in
      ground (arith, apart, apart', text_eqb_self keys.metadata)

  forgotten_id :
      (hashes : Hashes) (id : ℕ) (guid : Text) (other : ℕ)
      → id < other
      → forgotten hashes id guid (rev keys.metadata) (decimal other)
        ≡ hashes (rev keys.metadata) (decimal other)
  forgotten_id hashes id guid other h =
      let (apart, apart') = rev_apart keys.metadata in
      let differ =
        text_eqb_ne (decimal id) (decimal other)
          λ e. let same = decimal-injective id other e in omega arith in
      ground (arith, apart, apart', text_eqb_self (rev keys.metadata), differ)

  Tracked-forgotten :
      (hashes : Hashes) (id : ℕ) (guid : Text) (lo hi : ℕ) (q : List Entry)
      → id ≤ lo
      → Rises lo hi q
      → Apart guid q
      → Tracked base64 keys hashes q
      → Tracked base64 keys (forgotten hashes id guid) q
  Tracked-forgotten hashes id guid lo hi [] l r a t = tt
  Tracked-forgotten hashes id guid lo hi (e ∷ q) l r a t = (
    record {
      id_of = forgotten_guid hashes id guid e.guid a.0 ∙ t.0.id_of;
      guid_of = forgotten_id hashes id guid e.id (omega arith) ∙ t.0.guid_of;
      no_counter = t.0.no_counter;
      small = t.0.small;
    },
    t.1,
    Tracked-forgotten hashes id guid e.id hi q (omega arith) r.1 a.1 t.2,
  )

  Rises-from : (lo lo' hi : ℕ) (q : List Entry) → lo ≤ lo' → Rises lo' hi q → Rises lo hi q
  Rises-from lo lo' hi [] l r = omega arith
  Rises-from lo lo' hi (e ∷ q) l r = (omega arith, r.1)

  pub Stores-removed :
      (e : Entry) (q : List Entry) (v : View)
      → Stores base64 keys (e ∷ q) v
      → Stores base64 keys q (after_remove base64 law keys e q v)
  Stores-removed e q v h = record {
    count = h.count;
    entries = rw (text_eqb_self keys.queue) refl;
    tracked =
        Tracked-forgotten v.hashes e.id e.guid e.id h.count q (omega arith) h.rises.1 h.tracked.1
          h.tracked.2;
    counted = rw (forgotten_guid v.hashes e.id e.guid counter h.tracked.0.no_counter) h.counted;
    rises = Rises-from 0 e.id h.count q (omega arith) h.rises.1;
    bounded = h.bounded;
  }

  pub Stores-dropped :
      (q : List Entry) (v : View)
      → AreApart keys
      → Stores base64 keys q v
      → Stores base64 keys q (dropped base64 law keys q v)
  Stores-dropped [] v apart h = record {
    count = 0;
    entries = ground (arith, text_eqb_self keys.queue, apart.index_apart);
    tracked = tt;
    counted = inr (ground (arith, text_eqb_self keys.metadata), refl);
    rises = omega arith;
    bounded = omega arith;
  }
  Stores-dropped (e ∷ q) v apart h = h

  Stores-whole :
      (e : Entry) (q : List Entry) (v : View)
      → AreApart keys
      → Stores base64 keys (e ∷ q) v
      → Stores base64 keys q (dropped base64 law keys q (after_remove base64 law keys e q v))
  Stores-whole e q v apart h =
      Stores-dropped q (after_remove base64 law keys e q v) apart (Stores-removed e q v h)

  pub dropped-lock :
      (q : List Entry) (k : Text) (v : View)
      → v.strings k ≡ none
      → (dropped base64 law keys q v).strings k ≡ none
  dropped-lock [] k v h = ground (arith, h)
  dropped-lock (e ∷ q) k v h = h

  pub not_locked :
      (q : List Entry) (v : View)
      → Holds base64 keys q v
      → documented (get_key keys.lock) v ≡ (ok nil, v)
  unfolding documented
  not_locked q v h = rw h.unlocked refl

  first_of :
      (q : List Entry) (v : View)
      → Holds base64 keys q v
      → documented (zrange keys.queue 0 0) v
        ≡ (ok (array (members (take 1 (stored base64 keys q)))), v)
  unfolding documented
  first_of q v h = rw h.stores.entries refl

  dequeue_bytes-empty :
      (n : ℕ) (v : View)
      → Holds base64 keys [] v
      → run documented (dequeue_bytes base64 keys n) v ≡ (ok ([], 0, pos 1), v)
  unfolding dequeue_bytes get_first to_i32
  dequeue_bytes-empty n v h = ground (arith, not_locked [] v h, first_of [] v h)

  dequeue_bytes-part :
      (n : ℕ) (e : Entry) (q : List Entry) (v : View)
      → Holds base64 keys (e ∷ q) v
      → FitsI32 (pred_ℤ e.order)
      → n < length e.value
      → run documented (dequeue_bytes base64 keys n) v
        ≡ (ok (take n e.value, n, e.order), after_part base64 law keys n e q v)
  unfolding dequeue_bytes get_first bytes_decode
  dequeue_bytes-part n e q v h small less =
      let (identified, decoded, _) =
        create_payload_entry-parts base64 law e.id e.value e.order
          (id_fits base64 law keys e q v h.stores)
          (FitsI32→FitsI64 base64 law keys e.order h.stores.tracked.0.small) in
      ground (
        arith,
        not_locked (e ∷ q) v h,
        first_of (e ∷ q) v h,
        identified,
        decoded,
        take_part-stored base64 law keys n e q v h.stores small
            (ground (arith, length-take n e.value)),
      )

  dequeue_bytes-whole :
      (n : ℕ) (e : Entry) (q : List Entry) (v : View)
      → Holds base64 keys (e ∷ q) v
      → length e.value ≤ n
      → run documented (dequeue_bytes base64 keys n) v ≡ (
        ok (e.value, length e.value, pos 2),
        dropped base64 law keys q (after_remove base64 law keys e q v),
      )
  unfolding dequeue_bytes get_first bytes_decode
  dequeue_bytes-whole n e q v h less =
      let (identified, decoded, _) =
        create_payload_entry-parts base64 law e.id e.value e.order
          (id_fits base64 law keys e q v h.stores)
          (FitsI32→FitsI64 base64 law keys e.order h.stores.tracked.0.small) in
      ground (
        arith,
        not_locked (e ∷ q) v h,
        first_of (e ∷ q) v h,
        identified,
        decoded,
        take_whole-stored base64 law keys e q v h.stores,
      )

  dequeue_bytes-documented :
      (n : ℕ) (q : List Entry) (v : View)
      → AreApart keys
      → Holds base64 keys q v
      → HasOrders q
      → Ends
          (run documented (dequeue_bytes base64 keys n) v)
          λ r v'. (r ≡ (take_from n q).0) × Holds base64 keys (take_from n q).1 v'
  unfolding take_from
  dequeue_bytes-documented n [] v apart h o = rw (dequeue_bytes-empty n v h) (refl, h)
  dequeue_bytes-documented n (e ∷ q) v apart h o = elim (Bool-cases (ltb n (length e.value))) [
    | inl part ↦
        rw (part, dequeue_bytes-part n e q v h o (ltb→lt n (length e.value) part))
          (refl, record { stores = Stores-part n e q v h.stores o; unlocked = h.unlocked })
    | inr whole ↦
        rw (whole, dequeue_bytes-whole n e q v h (ground arith))
          (
            refl,
            record {
              stores = Stores-whole e q v apart h.stores;
              unlocked = dropped-lock q keys.lock (after_remove base64 law keys e q v) h.unlocked;
            },
          )
  ]

  -- One call of `dequeue_bytes` on a store that holds a queue takes the bytes from the front of the
  -- queue, as `take_from` describes, and leaves a store that holds the rest; if the server answers as
  -- documented, its keys are apart, and the order of the first entry can be decremented.
  pub dequeue_bytes-take_from :
      {S : Type 0} (execute : Server S) (view : S → View) (n : ℕ) (q : List Entry) (s : S)
      → IsDocumented execute view
      → AreApart keys
      → Holds base64 keys q (view s)
      → HasOrders q
      → Ends
          (run execute (dequeue_bytes base64 keys n) s)
          λ r s'. (r ≡ (take_from n q).0) × Holds base64 keys (take_from n q).1 (view s')
  dequeue_bytes-take_from execute view n q s doc apart h orders =
      Ends-documented execute view doc (dequeue_bytes base64 keys n)
        (λ r v. (r ≡ (take_from n q).0) × Holds base64 keys (take_from n q).1 v) s
        (dequeue_bytes-documented n q (view s) apart h orders)
