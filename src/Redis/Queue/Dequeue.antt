-- ===== src/Redis/Queue/Dequeue.antt =====
-- `dequeue_bytes` takes from the front of the queue.
use denim.Prelude.{
  Option, ap, leb, ◌&&◌, ◌∙◌, ℕ, suc, ◌-◌, ◌≤◌, ◌≡◌, refl, ℤ, pos, negsuc, pred_ℤ, some, none, List,
  [], ◌∷◌, length, take, drop, arith, append-nil, ok, err, panic, out_of_fuel,
}
use denim.Text.{Text, decimal, u64_max}
use denim.Text.Decimal.{parse_u64-decimal, FitsI64}
use denim.Redis.{
  array, int, at, zrange_byscore, zrem, zadd, Server, Exchange, run, finish, call, ◌>>=◌, hget,
  hdel, zcard, zremrangebyscore, done, seen,
}
use denim.Chunk.Types.{to_i32}
use denim.Redis.Documented.{
  limited, both, at_least, at_most, least, most, selected, cut, double-exact, exact_max, View,
  documented, update, set_zset, set_hash, as_bulk, remove_where, members_where, without_members,
}
use denim.Redis.Entries.{Base64, create_payload_entry, bytes_decode, as_i32, to_string}
use denim.Redis.Entries.RoundTrip.{IsBase64, create_payload_entry-parts}
use denim.Redis.Operations.{
  Keys, rev, replace_entry, update_value, take_part, remove_value, remove_loop, drop_empty, remove,
  take_whole,
}
use denim.Redis.Queue.{Entry, Rises, Stores, stored, entry_text, FitsI32}
use denim.Redis.Queue.Lookup.{
  same_score, text_eqb_self, Rises-le, members_where-stored, remove_where-stored, has_member-stored,
  without_members-stored, place-front,
}

-- A call that ends in a value, then the rest.
pub run->>= :
    {S A B : Type 0} (execute : Server S) (p : Exchange A) (f : A → Exchange B) (s s' : S) (a : A)
    → run execute p s ≡ (ok a, s')
    → run execute (p >>= f) s ≡ run execute (f a) s'
run->>= execute (finish (ok b)) f s s' a e = ground arith
run->>= execute (finish (err x)) f s s' a e = cc
run->>= execute (finish panic) f s s' a e = cc
run->>= execute (finish out_of_fuel) f s s' a e = cc
run->>= execute (call c k) f s s' a e =
    run->>= execute (k (seen c (execute c s).0)) f (execute c s).1 s' a e

module _ (base64 : Base64) (law : IsBase64 base64) (keys : Keys) where
  -- The store after a part of the first value is taken.
  abbrev pub after_part : ℕ → Entry → List Entry → View → View
  after_part n e q v = record v {
    zsets =
        update (update v.zsets keys.queue (stored base64 keys q)) keys.queue
          (stored base64 keys (record e { value = drop n e.value; order = pred_ℤ e.order } ∷ q));
  }

  as_i32-fits : (z : ℤ) → FitsI32 z → as_i32 z ≡ z
  unfolding as_i32
  as_i32-fits (pos n) h = ground arith
  as_i32-fits (negsuc n) h = ground arith

  pub FitsI32→FitsI64 : (z : ℤ) → FitsI32 z → FitsI64 z
  FitsI32→FitsI64 (pos n) h = omega arith
  FitsI32→FitsI64 (negsuc n) h = omega arith

  pub id_fits :
      (e : Entry) (q : List Entry) (v : View) → Stores base64 keys (e ∷ q) v → e.id ≤ u64_max
  id_fits e q v h = omega (arith, Rises-le e.id h.count q h.rises.1, h.bounded)

  id_exact :
      (e : Entry) (q : List Entry) (v : View) (h : Stores base64 keys (e ∷ q) v) → e.id ≤ exact_max
  id_exact e q v h = omega (arith, Rises-le e.id h.count q h.rises.1, h.bounded)

  -- The range of one identifier.
  both_at :
      (id : ℕ)
      → id ≤ exact_max
      → both (least (at (decimal id))) (most (at (decimal id))) ≡ some (same_score id)
  both_at id small =
      ap (λ p. both (at_least p) (at_most p)) (parse_u64-decimal id (omega arith))
      ∙ ap (λ d. some λ n. leb d n && leb n d) (double-exact id small)

  range_at :
      (id : ℕ) (limit : Option ℕ) (v : View)
      → id ≤ exact_max
      → documented (zrange_byscore keys.queue (at (decimal id)) (at (decimal id)) limit) v
        ≡ (ok (array (limited limit (members_where (same_score id) (v.zsets keys.queue)))), v)
  unfolding documented
  range_at id limit v small = ap (λ b. selected b limit v keys.queue) (both_at id small)

  cut_at :
      (id : ℕ) (v : View)
      → id ≤ exact_max
      → documented (zremrangebyscore keys.queue (at (decimal id)) (at (decimal id))) v ≡ (
        ok (
            int (
              length (v.zsets keys.queue)
              - length (remove_where (same_score id) (v.zsets keys.queue)))),
        set_zset v keys.queue (remove_where (same_score id) (v.zsets keys.queue)),
      )
  unfolding documented
  cut_at id v small = ap (λ b. cut b v keys.queue) (both_at id small)

  -- The commands of `update_value`.
  find_first :
      (e : Entry) (q : List Entry) (v : View)
      → Stores base64 keys (e ∷ q) v
      → documented (zrange_byscore keys.queue (at (decimal e.id)) (at (decimal e.id)) none) v
        ≡ (ok (array (entry_text base64 keys e ∷ [])), v)
  unfolding members_where
  find_first e q v h = rw (range_at e.id none v (id_exact e q v h)) (
      ground (
        arith,
        h.entries,
        members_where-stored base64 law keys e.id e.id h.count q (omega arith) h.rises.1,
      ))

  remove_first :
      (e : Entry) (q : List Entry) (v : View)
      → Stores base64 keys (e ∷ q) v
      → documented (zrem keys.queue (entry_text base64 keys e ∷ [])) v
        ≡ (ok (int 1), set_zset v keys.queue (stored base64 keys q))
  unfolding documented without_members
  remove_first e q v h = ground (
    arith,
    h.entries,
    text_eqb_self (entry_text base64 keys e),
    without_members-stored base64 law keys e.id e.value e.order e.id h.count q (omega arith)
        h.rises.1,
  )

  replace_first :
      (id : ℕ) (value : List ℕ) (order : ℤ) (hi : ℕ) (q : List Entry) (v : View)
      → Rises id hi q
      → id ≤ exact_max
      → documented
          (zadd keys.queue id (create_payload_entry base64 id value order))
          (set_zset v keys.queue (stored base64 keys q))
        ≡ (
          ok (int 1),
          set_zset
              (set_zset v keys.queue (stored base64 keys q))
              keys.queue
              ((id, create_payload_entry base64 id value order) ∷ stored base64 keys q),
        )
  unfolding documented
  replace_first id value order hi q v r small = ground (
    arith,
    double-exact id small,
    text_eqb_self keys.queue,
    has_member-stored base64 law keys id value order id hi q (omega arith) r,
    place-front base64 law keys id (create_payload_entry base64 id value order) hi q r,
  )

  pub take_part-stored :
      (n : ℕ) (e : Entry) (q : List Entry) (v : View)
      → Stores base64 keys (e ∷ q) v
      → FitsI32 (pred_ℤ e.order)
      → length (take n e.value) ≡ n
      → run documented (take_part base64 keys n e.id e.value) v
        ≡ (ok (take n e.value, n, e.order), after_part n e q v)
  unfolding take_part update_value replace_entry to_string
  take_part-stored n e q v h small all =
      let (first_id, above) = h.rises in
      let (_, _, ordered) =
        create_payload_entry-parts base64 law e.id e.value e.order (id_fits e q v h)
          (FitsI32→FitsI64 e.order h.tracked.0.small) in
      ground (
        arith,
        find_first e q v h,
        remove_first e q v h,
        ordered,
        as_i32-fits e.order h.tracked.0.small,
        as_i32-fits (pred_ℤ e.order) small,
        replace_first e.id (drop n e.value) (pred_ℤ e.order) h.count q v above (id_exact e q v h),
      )

  -- The store after the first entry is removed, without and with the end of `remove`.
  abbrev pub after_remove : Entry → List Entry → View → View
  after_remove e q v =
      set_hash (set_hash (set_zset v keys.queue (stored base64 keys q)) keys.metadata e.guid none)
        (rev keys.metadata) (decimal e.id) none

  abbrev pub del : View → Text → View
  del v k = record {
    strings = update v.strings k none;
    hashes = update v.hashes k λ field. none;
    zsets = update v.zsets k [];
  }

  abbrev pub dropped : List Entry → View → View
  dropped [] v =
      let w = del (del v keys.queue) keys.metadata in
      set_zset w keys.total_index (without_members (keys.queue ∷ []) (w.zsets keys.total_index)).0
  dropped (e ∷ q) v = v

  pub drop_empty-stored :
      (q : List Entry) (v : View)
      → run documented (drop_empty base64 keys (length (stored base64 keys q))) v
        ≡ (ok tt, dropped q v)
  unfolding drop_empty documented without_members
  drop_empty-stored [] v = refl
  drop_empty-stored (e ∷ q) v = ground arith

  pub select_first :
      (e : Entry) (q : List Entry) (v : View)
      → Stores base64 keys (e ∷ q) v
      → documented (zrange_byscore keys.queue (at (decimal e.id)) (at (decimal e.id)) (some 1)) v
        ≡ (ok (array (entry_text base64 keys e ∷ [])), v)
  unfolding members_where
  select_first e q v h = rw (range_at e.id (some 1) v (id_exact e q v h)) (
      ground (
        arith,
        h.entries,
        members_where-stored base64 law keys e.id e.id h.count q (omega arith) h.rises.1,
      ))

  pub cut_first :
      (e : Entry) (q : List Entry) (v : View)
      → Stores base64 keys (e ∷ q) v
      → (n : ℕ) × (documented
            (zremrangebyscore keys.queue (at (decimal e.id)) (at (decimal e.id)))
            v
          ≡ (ok (int n), set_zset v keys.queue (stored base64 keys q)))
  unfolding remove_where
  cut_first e q v h = (
    suc (length (stored base64 keys q)) - length (stored base64 keys q),
    rw (cut_at e.id v (id_exact e q v h)) (
        ground (
          arith,
          h.entries,
          remove_where-stored base64 law keys e.id e.id h.count q (omega arith) h.rises.1,
        )),
  )

  decode_first :
      (e : Entry) (q : List Entry) (v : View)
      → Stores base64 keys (e ∷ q) v
      → bytes_decode base64 (entry_text base64 keys e ∷ []) ≡ ok (e.value ∷ [])
  unfolding bytes_decode
  decode_first e q v h =
      let (_, decoded, _) =
        create_payload_entry-parts base64 law e.id e.value e.order (id_fits e q v h)
          (FitsI32→FitsI64 e.order h.tracked.0.small) in
      ground (arith, decoded)

  pub hget_lem :
      (k field : Text) (v : View)
      → documented (hget k field) v ≡ (ok (as_bulk (v.hashes k field)), v)
  unfolding documented
  hget_lem k field v = refl

  pub hdel_lem :
      (k field : Text) (v : View) → documented (hdel k field) v ≡ (ok done, set_hash v k field none)
  unfolding documented
  hdel_lem k field v = refl

  zcard_after :
      (e : Entry) (q : List Entry) (v : View)
      → documented (zcard keys.queue) (after_remove e q v)
        ≡ (ok (int (length (stored base64 keys q))), after_remove e q v)
  unfolding documented
  zcard_after e q v = rw (text_eqb_self keys.queue) refl

  pub take_whole-stored :
      (e : Entry) (q : List Entry) (v : View)
      → Stores base64 keys (e ∷ q) v
      → run documented (take_whole base64 keys e.id) v
        ≡ (ok (e.value, length e.value, pos 2), dropped q (after_remove e q v))
  unfolding take_whole remove remove_loop remove_value to_i32
  take_whole-stored e q v h = ground (
    arith,
    h.tracked.0.guid_of,
    h.tracked.0.id_of,
    hget_lem (rev keys.metadata) (decimal e.id) v,
    hget_lem keys.metadata e.guid v,
    select_first e q v h,
    cut_first e q v h,
    hdel_lem keys.metadata e.guid (set_zset v keys.queue (stored base64 keys q)),
    hdel_lem (rev keys.metadata) (decimal e.id)
        (set_hash (set_zset v keys.queue (stored base64 keys q)) keys.metadata e.guid none),
    decode_first e q v h,
    zcard_after e q v,
    drop_empty-stored q (after_remove e q v),
    append-nil e.value,
  )
