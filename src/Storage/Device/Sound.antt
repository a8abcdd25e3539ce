-- ===== src/Storage/Device/Sound.antt =====
-- Transactions of the client's database end if every call of SQLite does.
use denim.Prelude.{
  refl, ℕ, ℤ, ◌≡◌, List, [], ◌∷◌, ◌++◌, Outcome, ok, err, panic, out_of_fuel, map_err, String,
}
use denim.Prelude.Effects.{Ends, go_on-Ends, AllOrNothing-Ends, go_on, return, ◌>>=◌, ◌>>◌}
use denim.Chunk.Types.{DenimChunk}
use denim.Storage.{
  SignalProtocolError, invalid_argument, Tables, Engine, Steps, called, settle, transaction,
  for_rows, reading, writing,
}
use denim.Storage.Device.Deniable.{
  take_chunk, delete_chunk, insert_chunks, store_incoming_deniable_chunks,
  get_and_remove_incoming_deniable_chunks,
}
use denim.Storage.Device.Chunks.{
  IsTable, Taken, held, store_incoming_deniable_chunks-held,
  get_and_remove_incoming_deniable_chunks-all,
}
use mathlib.Core.List.{Permᴰ}

-- No call fails.
pub record IsSound {E : Type 0} (engine : Engine E) : Type 0 where
  pub prepares : (s : E) → (engine.prepare s).0 ≡ ok tt
  pub executes : (s : E) → (engine.execute s).0 ≡ ok tt
  pub fetches : (s : E) → (engine.fetch s).0 ≡ ok tt
  pub begins : (s : E) → (engine.begin s).0 ≡ ok tt
  pub commits : (s : E) → (engine.commit s).0 ≡ ok tt

-- A call that does not fail, before a rest.
pub after_sound :
    {E B : Type 0} (r : Outcome String (Unit {0}) × E) (t : Tables) (k : Unit {0} → Steps E B)
    (Q : B → Tables × E → Type 0)
    → r.0 ≡ ok tt
    → ((s : E) → Ends (k tt (t, s)) Q)
    → Ends (go_on (map_err invalid_argument r.0, (t, r.1)) k) Q
after_sound r t k Q h rest = rw h (rest r.1)

abbrev Done : {E A : Type 0} → Outcome SignalProtocolError A × (Tables × E) → Type 0
Done r = Ends r λ _ _. Unit

settle-Done :
    {E A : Type 0} (t : Tables) (r : Outcome SignalProtocolError A × (Tables × E))
    → Done r
    → Done (settle t r)
settle-Done t (ok a, st) h = h
settle-Done t (err e, st) h = h
settle-Done t (panic, st) h = h
settle-Done t (out_of_fuel, st) h = h

module _ {E : Type 0} (engine : Engine E) (sound : IsSound engine) where
  pub reading_value :
      {A : Type 0} (f : Tables → Outcome String A) (a : A) (t : Tables) (s : E)
      → f t ≡ ok a
      → Ends (reading engine f (t, s)) λ b st. (b ≡ a) × (st.0 ≡ t)
  reading_value f a t s h =
      after_sound (engine.prepare s) t _ (λ b st. (b ≡ a) × (st.0 ≡ t)) (sound.prepares s)
        λ s1.
          after_sound (engine.execute s1) t _ (λ b st. (b ≡ a) × (st.0 ≡ t)) (sound.executes s1)
            λ s2. rw h (refl, refl)

  pub writing_done :
      (f : Tables → Tables) (t : Tables) (s : E) → Ends (writing engine f (t, s)) λ _ st. st.0 ≡ f t
  writing_done f t s =
      after_sound (engine.prepare s) t _ (λ _ st. st.0 ≡ f t) (sound.prepares s)
        λ s1.
          after_sound (engine.execute s1) t _ (λ _ st. st.0 ≡ f t) (sound.executes s1) λ s2. refl

  transaction-Done :
      {A : Type 0} (body : Steps E A) (t : Tables) (s : E)
      → ((s1 : E) → Done (body (t, s1)))
      → Done (transaction engine body (t, s))
  transaction-Done {A} body t s h =
      settle-Done t
        ((called engine.begin >> (body >>= λ a. called engine.commit >> return a)) (t, s))
        (after_sound (engine.begin s) t _ (λ _ _. Unit) (sound.begins s)
          λ s1.
            go_on-Ends {E = SignalProtocolError} {A = A} {B = A} (body (t, s1)) _ (λ _ _. Unit)
              (λ _ _. Unit) (h s1)
              λ a st done.
                after_sound (engine.commit st.1) st.0 (λ _. return a) (λ _ _. Unit)
                  (sound.commits st.1) λ s2. tt)

  insert_chunks-Done :
      (cs : List DenimChunk) (t : Tables) (s : E) → Done (insert_chunks engine cs (t, s))
  unfolding insert_chunks
  insert_chunks-Done [] t s = tt
  insert_chunks-Done (c ∷ cs) t s =
      after_sound (engine.execute s) t _ (λ _ _. Unit) (sound.executes s)
        λ s1. insert_chunks-Done cs _ s1

  take_chunks-Done :
      (rows : List (ℕ × (List ℕ × ℤ))) (acc : List DenimChunk) (t : Tables) (s : E)
      → Done (for_rows engine (take_chunk engine) rows acc (t, s))
  take_chunks-Done [] acc t s =
      after_sound (engine.fetch s) t _ (λ _ _. Unit) (sound.fetches s) λ s1. tt
  take_chunks-Done ((id, (chunk, flags)) ∷ rows) acc t s =
      after_sound (engine.fetch s) t _ (λ _ _. Unit) (sound.fetches s)
        λ s1.
          go_on-Ends {E = SignalProtocolError} {A = List DenimChunk} {B = List DenimChunk}
            (take_chunk engine (id, (chunk, flags)) acc (t, s1)) _ (λ _ _. Unit) (λ _ _. Unit)
            (go_on-Ends {E = SignalProtocolError} {A = Unit {0}} {B = List DenimChunk}
              (delete_chunk engine id (t, s1)) _ (λ _ _. Unit) (λ _ _. Unit)
              (after_sound (engine.execute s1) t _ (λ _ _. Unit) (sound.executes s1) λ s2. tt)
              λ _ st _. tt)
            λ a st _. take_chunks-Done rows a st.0 st.1

  pub store_incoming_deniable_chunks-Ends :
      (law : IsTable engine) (cs : List DenimChunk) (t : Tables) (s : E)
      → Ends
          (store_incoming_deniable_chunks engine cs (t, s))
          λ _ st. Permᴰ (held st.0) (cs ++ held t)
  unfolding store_incoming_deniable_chunks
  store_incoming_deniable_chunks-Ends law cs t s =
      AllOrNothing-Ends t (store_incoming_deniable_chunks engine cs (t, s))
        (λ _ t'. Permᴰ (held t') (cs ++ held t))
        (store_incoming_deniable_chunks-held engine law cs t s) ends
    where
      ends : Done (store_incoming_deniable_chunks engine cs (t, s))
      ends = transaction-Done _ t s λ s1.
          after_sound (engine.prepare s1) t _ (λ _ _. Unit) (sound.prepares s1)
            λ s2. insert_chunks-Done cs t s2

  pub get_and_remove_incoming_deniable_chunks-Ends :
      (law : IsTable engine) (t : Tables) (s : E)
      → Ends
          (get_and_remove_incoming_deniable_chunks engine (t, s))
          λ got st. Taken engine t got st.0
  unfolding get_and_remove_incoming_deniable_chunks
  get_and_remove_incoming_deniable_chunks-Ends law t s =
      AllOrNothing-Ends t (get_and_remove_incoming_deniable_chunks engine (t, s)) (Taken engine t)
        (get_and_remove_incoming_deniable_chunks-all engine t s law) ends
    where
      ends : Done (get_and_remove_incoming_deniable_chunks engine (t, s))
      ends = transaction-Done _ t s λ s1.
          go_on-Ends {E = SignalProtocolError} {A = List (ℕ × (List ℕ × ℤ))} {B = List DenimChunk}
            (reading engine (λ t. ok (engine.arrange t.incoming_deniable_chunk.entries)) (t, s1)) _
            (λ _ _. Unit) (λ _ _. Unit)
            (after_sound (engine.prepare s1) t _ (λ _ _. Unit) (sound.prepares s1)
              λ s2. after_sound (engine.execute s2) t _ (λ _ _. Unit) (sound.executes s2) λ s3. tt)
            λ rows st _.
              after_sound (engine.prepare st.1) st.0 _ (λ _ _. Unit) (sound.prepares st.1)
                λ s4. take_chunks-Done rows [] st.0 s4
