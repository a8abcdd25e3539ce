-- ===== src/Redis/Queue/Page.antt =====
-- `get_values` and `remove` on the first page of a queue.
use denim.Prelude.{
  ℕ, zero, suc, ◌+◌, ◌≤◌, ◌≡◌, refl, ap, sym, ◌∙◌, negsuc, true, some, none, List, [], ◌∷◌, ◌++◌,
  length, take, arith, ltb, ◌&&◌, ok, Run, append_assoc, append-nil,
}
use denim.Text.{Text, decimal}
use denim.Redis.{
  run, get_key, hget, zcard, zrange_byscore, above, infinity, nil, array, query, as_int, as_option,
  as_texts, return,
}
use denim.Redis.Documented.{exact_max, View, documented, set_zset, set_hash, members_where}
use denim.Redis.Entries.{Base64, object_decode, decode_value}
use denim.Redis.Entries.RoundTrip.{IsBase64, get_field_metadata-entry, split-entry}
use denim.Redis.Operations.{
  Keys, rev, page_size, guids_of, field_ids_of, page_of, get_values, remove_value, remove_loop,
  drop_empty, remove,
}
use denim.Redis.Queue.{Entry, Rises, Holds, Stores, Tracked, Apart, stored, entry_text, AreApart}
use denim.Redis.Queue.Lookup.{Rises-le}
use denim.Redis.Queue.Dequeue.{
  run->>=, after_remove, dropped, drop_empty-stored, select_first, cut_first, hdel_lem,
}
use denim.Redis.Queue.Takes.{Stores-removed, Stores-dropped, dropped-lock, not_locked}

abbrev pub guids : List Entry → List Text
guids [] = []
guids (e ∷ q) = e.guid ∷ guids q

abbrev ids : List Entry → List ℕ
ids [] = []
ids (e ∷ q) = e.id ∷ ids q

-- The values of the entries are these, encoded.
abbrev pub Reads : {T : Type 0} → (List ℕ → Run T) → List Entry → List T → Type 0
Reads deserialize [] [] = Unit {0}
Reads deserialize (e ∷ q) (x ∷ xs) = (deserialize e.value ≡ ok x) × Reads deserialize q xs
Reads deserialize _ _ = ⊥

module _ (base64 : Base64) (law : IsBase64 base64) (keys : Keys) where
  abbrev pub texts : List Entry → List Text
  texts [] = []
  texts (e ∷ q) = entry_text base64 keys e ∷ texts q

  take-texts : (n : ℕ) (q : List Entry) → take n (texts q) ≡ texts (take n q)
  take-texts zero q = refl
  take-texts (suc n) [] = refl
  take-texts (suc n) (e ∷ q) = ap (◌∷◌ (entry_text base64 keys e)) (take-texts n q)

  all_members :
      (q : List Entry) → members_where (λ n. ltb 0 (n + 1) && true) (stored base64 keys q) ≡ texts q
  unfolding members_where
  all_members [] = refl
  all_members (e ∷ q) = ground (arith, all_members q)

  select_page :
      (q : List Entry) (v : View)
      → Stores base64 keys q v
      → documented (zrange_byscore keys.queue (above (negsuc 0)) infinity (some page_size)) v
        ≡ (ok (array (texts (take page_size q))), v)
  unfolding documented
  select_page q v h = ground (arith, h.entries, all_members q, take-texts page_size q)

  field_ids_of-texts :
      (lo hi : ℕ) (q : List Entry)
      → Rises lo hi q
      → hi ≤ exact_max
      → field_ids_of base64 keys (texts q) ≡ ok (ids q)
  unfolding field_ids_of
  field_ids_of-texts lo hi [] r h = refl
  field_ids_of-texts lo hi (e ∷ q) r h =
      let below = Rises-le e.id hi q r.1 in
      ground (
        arith,
        get_field_metadata-entry base64 law e.id e.value e.order (omega arith),
        field_ids_of-texts e.id hi q r.1 h,
      )

  found_guid :
      (id : ℕ) (guid : Text) (v : View)
      → v.hashes (rev keys.metadata) (decimal id) ≡ some guid
      → run documented (query as_option (hget (rev keys.metadata) (decimal id))) v
        ≡ (ok (some guid), v)
  unfolding documented
  found_guid id guid v e = ground (arith, e)

  guids_of-ids :
      (q : List Entry) (v : View)
      → Tracked base64 keys v.hashes q
      → run documented (guids_of base64 keys (ids q)) v ≡ (ok (guids q), v)
  unfolding guids_of
  guids_of-ids [] v t = refl
  guids_of-ids (e ∷ q) v t =
      run->>= documented (query as_option (hget (rev keys.metadata) (decimal e.id))) _ v v
        (some e.guid) (found_guid e.id e.guid v t.0.guid_of)
      ∙ run->>= documented (guids_of base64 keys (ids q)) (λ rest. return (e.guid ∷ rest)) v v
          (guids q) (guids_of-ids q v t.2)

  Rises-take : (n lo hi : ℕ) (q : List Entry) → Rises lo hi q → Rises lo hi (take n q)
  Rises-take zero lo hi q r = Rises-le lo hi q r
  Rises-take (suc n) lo hi [] r = r
  Rises-take (suc n) lo hi (e ∷ q) r = (r.0, Rises-take n e.id hi q r.1)

  Tracked-take :
      (n : ℕ) (q : List Entry) (v : View)
      → Tracked base64 keys v.hashes q
      → Tracked base64 keys v.hashes (take n q)
  Tracked-take zero q v t = tt
  Tracked-take (suc n) [] v t = tt
  Tracked-take (suc n) (e ∷ q) v t = (t.0, Apart-take n e.guid q t.1, Tracked-take n q v t.2)
    where
      Apart-take : (n : ℕ) (guid : Text) (q : List Entry) → Apart guid q → Apart guid (take n q)
      Apart-take zero guid q a = tt
      Apart-take (suc n) guid [] a = tt
      Apart-take (suc n) guid (e ∷ q) a = (a.0, Apart-take n guid q a.1)

  get_values-found :
      (p : List Entry) (v : View)
      → documented (get_key keys.lock) v ≡ (ok nil, v)
      → documented (zrange_byscore keys.queue (above (negsuc 0)) infinity (some page_size)) v
        ≡ (ok (array (texts p)), v)
      → field_ids_of base64 keys (texts p) ≡ ok (ids p)
      → run documented (guids_of base64 keys (ids p)) v ≡ (ok (guids p), v)
      → run documented (get_values base64 keys (negsuc 0)) v ≡ (ok (texts p, guids p), v)
  unfolding get_values page_of
  get_values-found p v free selected identified named =
      run->>= documented (query as_option (get_key keys.lock)) _ v v none (ground (arith, free))
      ∙ run->>= documented
          (query as_texts (zrange_byscore keys.queue (above (negsuc 0)) infinity (some page_size)))
          _ v v (texts p) (ground (arith, selected))
      ∙ rw identified (
          run->>= documented (guids_of base64 keys (ids p)) (λ gs. return (texts p, gs)) v v
            (guids p) named)

  -- The first page of a queue is what `get_values` gives, with the guids; the store stays as it is.
  pub get_values-page :
      (q : List Entry) (v : View)
      → Holds base64 keys q v
      → run documented (get_values base64 keys (negsuc 0)) v
        ≡ (ok (texts (take page_size q), guids (take page_size q)), v)
  get_values-page q v h =
      let page : List Entry = take page_size q in
      get_values-found page v (not_locked base64 law keys q v h) (select_page q v h.stores)
        (field_ids_of-texts 0 h.stores.count page
          (Rises-take page_size 0 h.stores.count q h.stores.rises) h.stores.bounded)
        (guids_of-ids page v (Tracked-take page_size q v h.stores.tracked))

  decoded_first :
      {T : Type 0} (deserialize : List ℕ → Run T) (e : Entry) (x : T)
      → deserialize e.value ≡ ok x
      → object_decode base64 deserialize (entry_text base64 keys e ∷ []) ≡ ok (x ∷ [])
  unfolding object_decode decode_value
  decoded_first deserialize e x read =
      rw (split-entry base64 law e.id e.value e.order, law.decode-encode e.value, read) refl

  remove_value-first :
      {T : Type 0} (deserialize : List ℕ → Run T) (e : Entry) (x : T) (q : List Entry) (v : View)
      → Stores base64 keys (e ∷ q) v
      → deserialize e.value ≡ ok x
      → run documented
          (remove_value base64 keys (object_decode base64 deserialize) e.guid (decimal e.id))
          v
        ≡ (ok (x ∷ []), after_remove base64 law keys e q v)
  unfolding remove_value
  remove_value-first deserialize e x q v h read = ground (
    arith,
    select_first base64 law keys e q v h,
    cut_first base64 law keys e q v h,
    hdel_lem base64 law keys keys.metadata e.guid (set_zset v keys.queue (stored base64 keys q)),
    hdel_lem base64 law keys (rev keys.metadata) (decimal e.id)
        (set_hash (set_zset v keys.queue (stored base64 keys q)) keys.metadata e.guid none),
    decoded_first deserialize e x read,
  )

  found_id :
      (guid : Text) (id : ℕ) (v : View)
      → v.hashes keys.metadata guid ≡ some (decimal id)
      → run documented (query as_option (hget keys.metadata guid)) v ≡ (ok (some (decimal id)), v)
  unfolding documented
  found_id guid id v e = ground (arith, e)

  -- The loop of `remove` takes a front of the queue.
  remove_loop-front :
      {T : Type 0} (deserialize : List ℕ → Run T) (p q : List Entry) (xs removed : List T)
      (v : View)
      → Stores base64 keys (p ++ q) v
      → Reads deserialize p xs
      → (v' : View) × (run documented
            (remove_loop base64 keys (object_decode base64 deserialize) (guids p) removed)
            v
          ≡ (ok (removed ++ xs), v'))
        × Stores base64 keys q v'
        × (v'.strings ≡ v.strings)
  unfolding remove_loop
  remove_loop-front deserialize [] q [] removed v h read =
      (v, ap (λ xs. (ok xs, v)) (sym (append-nil removed)), h, refl)
  remove_loop-front deserialize [] q (x ∷ xs) removed v h read = absurd read
  remove_loop-front deserialize (e ∷ p) q [] removed v h read = absurd read
  remove_loop-front deserialize (e ∷ p) q (x ∷ xs) removed v h read =
      let w : View = after_remove base64 law keys e (p ++ q) v in
      let (v', rest, holds, same) =
        remove_loop-front deserialize p q xs (removed ++ x ∷ []) w
          (Stores-removed base64 law keys e (p ++ q) v h) read.1 in
      (
        v',
        run->>= documented (query as_option (hget keys.metadata e.guid)) _ v v (some (decimal e.id))
              (found_id e.guid e.id v h.tracked.0.id_of)
            ∙ run->>= documented
                (remove_value base64 keys (object_decode base64 deserialize) e.guid (decimal e.id))
                (λ values.
                  remove_loop base64 keys (object_decode base64 deserialize) (guids p)
                    (removed ++ values))
                v w (x ∷ []) (remove_value-first deserialize e x (p ++ q) v h read.0)
            ∙ rest
            ∙ ap (λ ys. (ok ys, v')) (append_assoc removed (x ∷ []) xs),
        holds,
        same,
      )

  count_left :
      (q : List Entry) (v : View)
      → Stores base64 keys q v
      → run documented (query as_int (zcard keys.queue)) v ≡ (ok (length (stored base64 keys q)), v)
  unfolding documented
  count_left q v h = ground (arith, h.entries)

  -- Removing the guids of a front of the queue gives its values and leaves the rest.
  pub remove-front :
      {T : Type 0} (deserialize : List ℕ → Run T) (p q : List Entry) (xs : List T) (v : View)
      → AreApart keys
      → Stores base64 keys (p ++ q) v
      → Reads deserialize p xs
      → (v' : View) × (run documented
            (remove base64 keys (object_decode base64 deserialize) (guids p))
            v
          ≡ (ok xs, v'))
        × Stores base64 keys q v'
        × ((k : Text) → v.strings k ≡ none → v'.strings k ≡ none)
  unfolding remove
  remove-front deserialize p q xs v apart h read =
      let (w, removed, holds, same) = remove_loop-front deserialize p q xs [] v h read in
      (
        dropped base64 law keys q w,
        run->>= documented (remove_loop base64 keys (object_decode base64 deserialize) (guids p) [])
              _ v w xs removed
            ∙ run->>= documented (query as_int (zcard keys.queue)) _ w w
                (length (stored base64 keys q)) (count_left q w holds)
            ∙ run->>= documented (drop_empty base64 keys (length (stored base64 keys q)))
                (λ _. return xs) w (dropped base64 law keys q w) tt
                (drop_empty-stored base64 law keys q w),
        Stores-dropped base64 law keys q w apart holds,
        λ k e. dropped-lock base64 law keys q k w (rw same e),
      )
