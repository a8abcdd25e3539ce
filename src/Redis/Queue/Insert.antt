-- ===== src/Redis/Queue/Insert.antt =====
-- `insert` puts an entry behind the queue, once for each guid.
use denim.Prelude.{
  ℕ, ◌+◌, ◌≤◌, ◌<◌, ◌≡◌, refl, ap, pos, true, false, some, none, List, [], ◌∷◌, ◌++◌, arith, ok,
  Run, inl, inr,
}
use denim.Text.{Text, decimal, i64_max, u64_max}
use denim.Text.Decimal.{parse_u64-decimal}
use denim.Redis.{run, hexists, hget, hincrby, zadd_nx, hset, expire, int, done}
use denim.Redis.Documented.{
  double, double-exact, exact_max, View, documented, set_zset, set_hash, zadd_to, as_bool, as_bulk,
  has_member, without_members, place,
}
use denim.Redis.Entries.{Base64, create_payload_entry}
use denim.Redis.Entries.RoundTrip.{IsBase64}
use denim.Redis.Operations.{Keys, rev, counter, insert, insert_new, recorded_id}
use denim.Redis.Queue.{Entry, Rises, Stores, stored, entry_text, Counts}
use denim.Redis.Queue.Lookup.{Rises-le, place-back, entry_ne}

module _ (base64 : Base64) (law : IsBase64 base64) (keys : Keys) where
  abbrev pub new_entry : ℕ → Text → List ℕ → Entry
  new_entry id guid value = record { id = id; guid = guid; value = value; order = pos 0 }

  -- The store after a new entry: the counter, the entry, its guid, its identifier, and the index.
  abbrev pub counted_view : ℕ → View → View
  counted_view id v = set_hash v keys.metadata counter (some (decimal id))

  abbrev pub added_view : ℕ → List Entry → Text → List ℕ → View → View
  added_view id q guid value v =
      set_zset (counted_view id v) keys.queue
        (stored base64 keys (q ++ new_entry id guid value ∷ []))

  abbrev pub guid_view : ℕ → List Entry → Text → List ℕ → View → View
  guid_view id q guid value v =
      set_hash (added_view id q guid value v) keys.metadata guid (some (decimal id))

  abbrev pub id_view : ℕ → List Entry → Text → List ℕ → View → View
  id_view id q guid value v =
      set_hash (guid_view id q guid value v) (rev keys.metadata) (decimal id) (some guid)

  abbrev pub after_insert : ℕ → ℕ → List Entry → Text → List ℕ → View → View
  after_insert time id q guid value v =
      let w = id_view id q guid value v in
      set_zset w keys.total_index
        (zadd_to true (double time) keys.queue (w.zsets keys.total_index)).0

  count_next :
      (count : ℕ) (v : View)
      → Counts base64 keys (v.hashes keys.metadata counter) count
      → count < i64_max
      → documented (hincrby keys.metadata counter 1) v
        ≡ (ok (int (count + 1)), counted_view (count + 1) v)
  unfolding documented
  count_next count v (inl e) small = ground (arith, e, parse_u64-decimal count (omega arith))
  count_next count v (inr (e, zero)) small = ground (arith, e, zero)

  stored-append :
      (q : List Entry) (e : Entry)
      → stored base64 keys (q ++ e ∷ [])
        ≡ stored base64 keys q ++ (e.id, entry_text base64 keys e) ∷ []
  stored-append [] e = refl
  stored-append (f ∷ q) e = ap (◌∷◌ (f.id, entry_text base64 keys f)) (stored-append q e)

  has_member-below :
      (id : ℕ) (value : List ℕ) (lo hi : ℕ) (q : List Entry)
      → Rises lo hi q
      → hi < id
      → has_member (create_payload_entry base64 id value (pos 0)) (stored base64 keys q) ≡ false
  unfolding has_member
  has_member-below id value lo hi [] r h = refl
  has_member-below id value lo hi (e ∷ q) r h =
      let below = Rises-le e.id hi q r.1 in
      rw (entry_ne base64 law id e.id value e.value (pos 0) e.order λ same. omega arith)
        (has_member-below id value e.id hi q r.1 h)

  add_last :
      (id count : ℕ) (q : List Entry) (guid : Text) (value : List ℕ) (v : View)
      → v.zsets keys.queue ≡ stored base64 keys q
      → Rises 0 count q
      → count < id
      → id ≤ exact_max
      → documented
          (zadd_nx keys.queue id (create_payload_entry base64 id value (pos 0)))
          (counted_view id v)
        ≡ (ok (int 1), added_view id q guid value v)
  unfolding documented
  add_last id count q guid value v entries r h small = ground (
    arith,
    double-exact id small,
    entries,
    has_member-below id value 0 count q r h,
    place-back base64 law keys id (create_payload_entry base64 id value (pos 0)) 0 count q r h,
    stored-append q (new_entry id guid value),
  )

  hset_lem :
      (k field t : Text) (v : View)
      → documented (hset k field t) v ≡ (ok done, set_hash v k field (some t))
  unfolding documented
  hset_lem k field t v = refl

  expire_lem : (k : Text) (v : View) → documented (expire k) v ≡ (ok done, v)
  unfolding documented
  expire_lem k v = refl

  index_lem :
      (time : ℕ) (v : View)
      → documented (zadd_nx keys.total_index time keys.queue) v ≡ (
        ok (int (zadd_to true (double time) keys.queue (v.zsets keys.total_index)).1),
        set_zset v keys.total_index
            (zadd_to true (double time) keys.queue (v.zsets keys.total_index)).0,
      )
  unfolding documented has_member without_members place
  index_lem time v = refl

  pub insert_new-stored :
      (time : ℕ) (q : List Entry) (guid : Text) (value : List ℕ) (v : View)
      (h : Stores base64 keys q v)
      → h.count < exact_max
      → run documented (insert_new base64 keys (ok time) guid value) v
        ≡ (ok (h.count + 1), after_insert time (h.count + 1) q guid value v)
  unfolding insert_new
  insert_new-stored time q guid value v h small =
      let id : ℕ = h.count + 1 in
      ground (
        arith,
        count_next h.count v h.counted (omega arith),
        add_last (h.count + 1) h.count q guid value v h.entries h.rises (omega arith) (omega arith),
        hset_lem keys.metadata guid (decimal (h.count + 1))
            (added_view (h.count + 1) q guid value v),
        hset_lem (rev keys.metadata) (decimal (h.count + 1)) guid
            (guid_view (h.count + 1) q guid value v),
        expire_lem keys.queue (id_view (h.count + 1) q guid value v),
        expire_lem keys.metadata (id_view (h.count + 1) q guid value v),
        index_lem time (id_view (h.count + 1) q guid value v),
      )

  hexists_lem :
      (k field : Text) (v : View)
      → documented (hexists k field) v ≡ (ok (as_bool (v.hashes k field)), v)
  unfolding documented
  hexists_lem k field v = refl

  hget_lem :
      (k field : Text) (v : View)
      → documented (hget k field) v ≡ (ok (as_bulk (v.hashes k field)), v)
  unfolding documented
  hget_lem k field v = refl

  pub insert-new :
      (time : ℕ) (q : List Entry) (guid : Text) (value : List ℕ) (v : View)
      (h : Stores base64 keys q v)
      → h.count < exact_max
      → v.hashes keys.metadata guid ≡ none
      → run documented (insert base64 keys (ok time) guid value) v
        ≡ (ok (h.count + 1), after_insert time (h.count + 1) q guid value v)
  unfolding insert
  insert-new time q guid value v h small new =
      ground (
        arith,
        new,
        hexists_lem keys.metadata guid v,
        insert_new-stored time q guid value v h small,
      )

  pub insert-known :
      (now : Run ℕ) (id : ℕ) (guid : Text) (value : List ℕ) (v : View)
      → v.hashes keys.metadata guid ≡ some (decimal id)
      → id ≤ u64_max
      → run documented (insert base64 keys now guid value) v ≡ (ok id, v)
  unfolding insert recorded_id
  insert-known now id guid value v known small = ground (
    arith,
    known,
    hexists_lem keys.metadata guid v,
    hget_lem keys.metadata guid v,
    parse_u64-decimal id small,
  )
