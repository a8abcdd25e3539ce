-- ===== src/Storage/Device/Chunks.antt =====
-- The chunks of a payload that has not arrived as a whole, in the client's database: transactions do
-- everything or nothing, whichever call of the database fails.
use mathlib.Core.List.{Permᴰ}
use mathlib.Core.List.Permᴰ
use denim.Prelude.{
  subst, ℕ, nat_eq, ℤ, ◌≡◌, refl, sym, ap, ◌∙◌, Bool, false, ◌||◌, none, List, [], ◌∷◌, ◌++◌,
  append_assoc, append-nil, map, Outcome, ok, err, panic, out_of_fuel, map_err, ◌==◌, arith,
  Bool-cases, inl, inr, String, if◌then◌else◌,
}
use denim.Prelude.Dict.{Dict, get, assoc, insert, remove, get-remove, insert_absent}
use denim.Prelude.Effects.{AllOrNothing, Gives, go_on-Gives, Gives-map, go_on, return, ◌>>=◌, ◌>>◌}
use denim.Chunk.Types.{DenimChunk}
use denim.Storage.{
  SignalProtocolError, invalid_argument, Tables, Engine, Steps, called, settle, transaction,
  for_rows, reading,
}
use denim.Storage.Device.Deniable.{
  take_chunk, delete_chunk, insert_chunks, store_incoming_deniable_chunks,
  get_and_remove_incoming_deniable_chunks,
}

-- The rows as chunks.
abbrev pub chunk_of : ℕ × (List ℕ × ℤ) → DenimChunk
chunk_of (id, (chunk, flags)) = record { chunk = chunk; flags = flags }

abbrev pub chunks_of : List (ℕ × (List ℕ × ℤ)) → List DenimChunk
chunks_of rows = map chunk_of rows

abbrev pub held : Tables → List DenimChunk
held t = chunks_of t.incoming_deniable_chunk.entries

-- All chunks have been taken, in the order of the query, and none is left.
abbrev pub Taken : {E : Type 0} → Engine E → Tables → List DenimChunk → Tables → Type 0
Taken engine t got t' =
    Permᴰ got (held t)
    × ((k : ℕ) → get t'.incoming_deniable_chunk k ≡ none)
    × (got ≡ chunks_of (engine.arrange t.incoming_deniable_chunk.entries))

-- SQLite gives a new row an identifier that no row has, and a query all rows.
pub record IsTable {E : Type 0} (engine : Engine E) : Type 1 where
  pub fresh : {A : Type 0} (d : Dict ℕ A) → get d (engine.fresh_id d.entries) ≡ none
  pub arranges : {A : Type 0} (rows : List A) → Permᴰ (engine.arrange rows) rows

settle-AllOrNothing :
    {E A : Type 0} (t : Tables) (r : Outcome SignalProtocolError A × (Tables × E))
    (P : A → Tables → Type 0)
    → Gives r (λ a st. P a st.0)
    → AllOrNothing t (settle t r) P
settle-AllOrNothing t (ok a, st) P h = h
settle-AllOrNothing t (err e, st) P h = refl
settle-AllOrNothing t (panic, st) P h = refl
settle-AllOrNothing t (out_of_fuel, st) P h = refl

-- A call of the library leaves the tables alone.
pub after_call :
    {E B : Type 0} (r : Outcome String (Unit {0}) × E) (t : Tables) (k : Unit {0} → Steps E B)
    (Q : B → Tables × E → Type 0)
    → ((s : E) → Gives (k tt (t, s)) Q)
    → Gives (go_on (map_err invalid_argument r.0, (t, r.1)) k) Q
after_call (ok tt, s) t k Q h = h s
after_call (err e, s) t k Q h = tt
after_call (panic, s) t k Q h = tt
after_call (out_of_fuel, s) t k Q h = tt

-- A query, before a rest.
after_reading :
    {E A B : Type 0} (engine : Engine E) (f : Tables → Outcome String A) (a : A) (t : Tables)
    (s : E) (k : A → Steps E B) (Q : B → Tables × E → Type 0)
    → f t ≡ ok a
    → ((s' : E) → Gives (k a (t, s')) Q)
    → Gives ((reading engine f >>= k) (t, s)) Q
after_reading {E} {A} {B} engine f a t s k Q h rest =
    go_on-Gives {E = SignalProtocolError} {A = A} {B = B} (reading engine f (t, s)) k
      (λ b st. (b ≡ a) × (st.0 ≡ t)) Q
      (after_call (engine.prepare s) t _ (λ b st. (b ≡ a) × (st.0 ≡ t))
        λ s1.
          after_call (engine.execute s1) t _ (λ b st. (b ≡ a) × (st.0 ≡ t)) λ s2. rw h (refl, refl))
      λ b st (same, kept).
        subst (λ x. Gives (k x st) Q) (sym same)
          (subst (λ x. Gives (k a (x, st.1)) Q) (sym kept) (rest st.1))

transaction-AllOrNothing :
    {E A : Type 0} (engine : Engine E) (body : Steps E A) (t : Tables) (s : E)
    (P : A → Tables → Type 0)
    → ((s1 : E) → Gives (body (t, s1)) λ a st. P a st.0)
    → AllOrNothing t (transaction engine body (t, s)) P
transaction-AllOrNothing {E} {A} engine body t s P h =
    settle-AllOrNothing t
      ((called engine.begin >> (body >>= λ a. called engine.commit >> return a)) (t, s)) P
      (after_call (engine.begin s) t _ (λ a st. P a st.0)
        λ s1.
          go_on-Gives {E = SignalProtocolError} {A = A} {B = A} (body (t, s1)) _ (λ a st. P a st.0)
            (λ a st. P a st.0) (h s1)
            λ a st p.
              after_call (engine.commit st.1) st.0 (λ _. return a) (λ a st. P a st.0) λ s3. p)

module _ {E : Type 0} (engine : Engine E) (law : IsTable engine) where
  insert_chunks-held :
      (cs : List DenimChunk) (t : Tables) (s : E)
      → Gives (insert_chunks engine cs (t, s)) λ _ st. Permᴰ (held st.0) (cs ++ held t)
  unfolding insert_chunks
  insert_chunks-held [] t s = Permᴰ.refl (held t)
  insert_chunks-held (c ∷ cs) t s =
      let d = t.incoming_deniable_chunk in
      let k = engine.fresh_id d.entries in
      let t' = record t { incoming_deniable_chunk = insert d k (c.chunk, c.flags) } in
      let grown : held t' ≡ c ∷ held t =
        ap chunks_of (insert_absent d k (c.chunk, c.flags) (law.fresh d)) in
      after_call (engine.execute s) t _ _ λ s'.
        Gives-map {E = SignalProtocolError} {A = Unit {0}} (insert_chunks engine cs (t', s')) _ _
          (insert_chunks-held cs t' s')
          λ _ st p. Permᴰ.trans p (rw grown (Permᴰ.middle c cs (held t)))

  -- Storing chunks adds all of them, in whatever order they come out, or none: if any call of the
  -- database fails the tables are as before. Given that a new row gets an identifier of its own.
  pub store_incoming_deniable_chunks-held :
      (cs : List DenimChunk) (t : Tables) (s : E)
      → AllOrNothing t
          (store_incoming_deniable_chunks engine cs (t, s))
          λ _ t'. Permᴰ (held t') (cs ++ held t)
  unfolding store_incoming_deniable_chunks
  store_incoming_deniable_chunks-held cs t s =
      transaction-AllOrNothing engine (called engine.prepare >> insert_chunks engine cs) t s
        (λ _ t'. Permᴰ (held t') (cs ++ held t))
        λ s1. after_call (engine.prepare s1) t _ _ λ s2. insert_chunks-held cs t s2

-- Whether a row has this identifier.
abbrev has : {A : Type 0} → List (ℕ × A) → ℕ → Bool
has [] k = false
has ((id, a) ∷ rows) k = id == k || has rows k

has-perm : {A : Type 0} {l m : List (ℕ × A)} (k : ℕ) → Permᴰ l m → has l k ≡ has m k
has-perm k Permᴰ.nil = refl
has-perm k (Permᴰ.cons {a = a} {b = b} e p) =
    let same : a.0 ≡ b.0 = ap (λ x. x.0) e in let rest = has-perm k p in rw (same, rest) refl
has-perm k (Permᴰ.swap {a = a} {b = b} {a' = a'} {b' = b'} {l = l} e f) =
    let first : a.0 ≡ b'.0 = ap (λ x. x.0) e in
    let second : b.0 ≡ a'.0 = ap (λ x. x.0) f in rw (first, second) (ground arith)
has-perm k (Permᴰ.trans p q) = has-perm k p ∙ has-perm k q

has-assoc : {A : Type 0} (rows : List (ℕ × A)) (k : ℕ) → has rows k ≡ false → assoc k rows ≡ none
unfolding assoc
has-assoc [] k h = refl
has-assoc ((id, a) ∷ rows) k h =
    let other : (id == k) ≡ false = ground (arith, h) in
    let rest : has rows k ≡ false = ground (arith, h) in rw other (has-assoc rows k rest)

without_both :
    {A B : Type 0} (id k : ℕ) (rows : List (ℕ × A)) (d : Dict ℕ B)
    → (if has rows k then none else get (remove d id) k)
      ≡ (if id == k || has rows k then none else get d k)
without_both id k rows d = ground (arith, get-remove d id k)

none_left :
    {A : Type 0} (rows : List (ℕ × A)) (d : Dict ℕ A) (k : ℕ)
    → Permᴰ rows d.entries
    → (if has rows k then none else get d k) ≡ none
unfolding get
none_left rows d k p = elim (Bool-cases (has rows k)) [
  | inl there ↦ rw there refl
  | inr missing ↦ rw (missing, has-assoc d.entries k (sym (has-perm k p) ∙ missing)) refl
]

module _ {E : Type 0} (engine : Engine E) where
  take_chunks-removed :
      (rows : List (ℕ × (List ℕ × ℤ))) (acc : List DenimChunk) (t : Tables) (s : E)
      → Gives (for_rows engine (take_chunk engine) rows acc (t, s)) λ got st.
        (got ≡ acc ++ chunks_of rows)
        × ((k : ℕ)
            → get st.0.incoming_deniable_chunk k
              ≡ (if has rows k then none else get t.incoming_deniable_chunk k))
  take_chunks-removed [] acc t s =
      after_call (engine.fetch s) t _ _ λ s1. (sym (append-nil acc), λ k. refl)
  take_chunks-removed ((id, (chunk, flags)) ∷ rows) acc t s =
      let c : DenimChunk = record { chunk = chunk; flags = flags } in
      let t' = record t { incoming_deniable_chunk = remove t.incoming_deniable_chunk id } in
      after_call (engine.fetch s) t _ _ λ s1.
        go_on-Gives {E = SignalProtocolError} {A = List DenimChunk} {B = List DenimChunk}
          (take_chunk engine (id, (chunk, flags)) acc (t, s1)) _
          (λ a st. (a ≡ acc ++ c ∷ []) × (st.0 ≡ t')) _
          (go_on-Gives {E = SignalProtocolError} {A = Unit {0}} {B = List DenimChunk}
            (delete_chunk engine id (t, s1)) _ (λ _ st. st.0 ≡ t') _
            (after_call (engine.execute s1) t _ _ λ s2. refl) λ _ st same. (refl, same))
          λ a st (grown, same).
            Gives-map {E = SignalProtocolError} {A = List DenimChunk}
              (for_rows engine (take_chunk engine) rows a st) _ _
              (take_chunks-removed rows a st.0 st.1)
              λ got st' (all, left). (
                all
                    ∙ ap (λ x. x ++ chunks_of rows) grown
                    ∙ append_assoc acc (c ∷ []) (chunks_of rows),
                λ k.
                    left k
                    ∙ ap (λ x. if has rows k then none else get x.incoming_deniable_chunk k) same
                    ∙ without_both id k rows t.incoming_deniable_chunk,
              )

  -- Taking the chunks gives all of them, in the order in which the database returns them, and leaves
  -- none; if any call of the database fails none is lost. Given that a query gives every row.
  pub get_and_remove_incoming_deniable_chunks-all :
      (t : Tables) (s : E)
      → IsTable engine
      → AllOrNothing t (get_and_remove_incoming_deniable_chunks engine (t, s)) (Taken engine t)
  unfolding get_and_remove_incoming_deniable_chunks get
  get_and_remove_incoming_deniable_chunks-all t s law =
      let entries = t.incoming_deniable_chunk.entries in
      let rows = engine.arrange entries in
      let all : Permᴰ rows entries = law.arranges entries in
      transaction-AllOrNothing engine _ t s (Taken engine t) λ s1.
        after_reading engine (λ t. ok (engine.arrange t.incoming_deniable_chunk.entries)) rows t s1
          _ (λ got st. Taken engine t got st.0) refl
          λ s3.
            after_call (engine.prepare s3) t _ (λ got st. Taken engine t got st.0)
              λ s4.
                Gives-map {E = SignalProtocolError} {A = List DenimChunk}
                  (for_rows engine (take_chunk engine) rows [] (t, s4)) _
                  (λ got st. Taken engine t got st.0) (take_chunks-removed rows [] t s4)
                  λ got st (same, left). (
                    rw same (Permᴰ.map chunk_of all),
                    λ k. left k ∙ none_left rows t.incoming_deniable_chunk k all,
                    same,
                  )
