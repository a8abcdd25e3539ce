-- ===== src/Client/Incoming/Arrival.antt =====
-- Chunks of a payload that arrive with several messages come out of the client as that payload:
-- `handle_incoming_chunks` of client/src/client.rs over client/src/storage/device.rs.
use mathlib.Core.List.{Permᴰ}
use mathlib.Core.List.Permᴰ
use denim.Prelude.{
  nat_eq, ℕ, ◌≡◌, refl, sym, ap, map, ◌∙◌, true, false, none, some, List, [], ◌∷◌, ◌++◌,
  append_assoc, append-nil, Outcome, ok, err, arith, ℤ, pos, ◌≤ℤ◌, ◌==◌, subst, Bool-cases, inl,
  inr, map_err, panic, out_of_fuel,
}
use denim.Prelude.Dict.{get, assoc}
use denim.Prelude.Effects.{Action, Ends, go_on-Ends, Ends-map, return, go_on, ◌>>=◌, ◌>>◌}
use denim.Chunk.Types.{DenimChunk, is_dummy, is_final}
use denim.Chunk.Sort.{sort, Descends, sort-perm}
use denim.Chunk.Ordered.Emits.{final_chunk}
use denim.DenimManager.Payloads.{Codec, flat_chunks}
use denim.DenimManager.Payloads.Order.{AllData, AllData-of, AllData-mem, Descends-AllData}
use denim.DenimManager.Payloads.RoundTrip.{flat_chunks-append}
use denim.Storage.{SignalProtocolError, Tables, Engine}
use denim.Storage.Device.Chunks.{IsTable, Taken, held, chunk_of}
use denim.Storage.Device.Sound.{
  IsSound, store_incoming_deniable_chunks-Ends, get_and_remove_incoming_deniable_chunks-Ends,
}
use denim.Storage.Device.Deniable.{
  get_and_remove_incoming_deniable_chunks, store_incoming_deniable_chunks,
}
use denim.Validators.{keep_if}
use denim.Client.{SignalClientError, database_error, stored}
use denim.Client.Incoming.{
  has_final, without_dummies, incoming_loop, keep_chunks, handle_incoming_chunks, receive_chunks,
}

-- Messages that arrive one after the other.
abbrev pub receive_all :
    {P E : Type 0}
    → Codec P
    → Engine E
    → List (List DenimChunk)
    → Action (Tables × E) SignalClientError (List P)
receive_all codec engine [] = return []
receive_all codec engine (chunks ∷ messages) = receive_chunks codec engine chunks >>= λ payloads.
    receive_all codec engine messages >>= λ more. return (payloads ++ more)

-- The chunks of messages that are not dummies.
abbrev pub all_kept : List (List DenimChunk) → List DenimChunk
all_kept [] = []
all_kept (chunks ∷ messages) = without_dummies chunks ++ all_kept messages

-- A call of the database, with the client's error.
pub stored-Ends :
    {E A : Type 0} (r : Outcome SignalProtocolError A × (Tables × E)) (P : A → Tables × E → Type 0)
    → Ends r P
    → Ends (map_err database_error r.0, r.1) P
stored-Ends (ok a, st) P h = h
stored-Ends (err e, st) P h = h
stored-Ends (panic, st) P h = h
stored-Ends (out_of_fuel, st) P h = h

AllData-perm : {cs ds : List DenimChunk} → Permᴰ cs ds → AllData ds → AllData cs
AllData-perm {cs} {ds} p h = AllData-of cs λ c m. AllData-mem ds c h (Permᴰ.mem p m)

AllData-back : (cs ds : List DenimChunk) → AllData (cs ++ ds) → AllData ds
AllData-back [] ds h = h
AllData-back (c ∷ cs) ds h = AllData-back cs ds h.1

AllData-front : (cs ds : List DenimChunk) → AllData (cs ++ ds) → AllData cs
AllData-front [] ds h = tt
AllData-front (c ∷ cs) ds h = (h.0, AllData-front cs ds h.1)

AllData-no_final : (cs : List DenimChunk) → AllData cs → has_final cs ≡ false
unfolding has_final is_final
AllData-no_final [] h = refl
AllData-no_final (c ∷ cs) h =
    let rest = AllData-no_final cs h.1 in let below = h.0 in ground (arith, rest, below)

not_final : (c : DenimChunk) → c.flags ≤ℤ pos 0 → is_final c ≡ false
unfolding is_final
not_final c h = ground (arith, h)

has_final-append :
    (cs after : List DenimChunk) (bytes : List ℕ)
    → has_final (cs ++ final_chunk bytes ∷ after) ≡ true
unfolding has_final is_final
has_final-append [] after bytes = refl
has_final-append (c ∷ cs) after bytes = ground (arith, has_final-append cs after bytes)

without_dummies-append :
    (cs after : List DenimChunk) (bytes : List ℕ)
    → without_dummies (cs ++ final_chunk bytes ∷ after)
      ≡ without_dummies cs ++ final_chunk bytes ∷ without_dummies after
unfolding without_dummies is_dummy keep_if
without_dummies-append [] after bytes = refl
without_dummies-append (c ∷ cs) after bytes =
    let rest = without_dummies-append cs after bytes in
    elim (Bool-cases (is_dummy c)) [
      | inl dummy ↦ rw dummy rest
      | inr kept ↦ rw kept (ap (λ x. c ∷ x) rest)
    ]

-- Nothing is found under any key: there is no row.
nothing_left : (t : Tables) → ((k : ℕ) → get t.incoming_deniable_chunk k ≡ none) → held t ≡ []
unfolding get assoc
nothing_left t h = go t.incoming_deniable_chunk.entries h
  where
    go : (rows : List (ℕ × (List ℕ × ℤ))) → ((k : ℕ) → assoc k rows ≡ none) → map chunk_of rows ≡ []
    go [] h = refl
    go ((k, c) ∷ rows) h =
        let own : (k == k) ≡ true = ground arith in
        let found : some c ≡ none = rw own at (h k) in cc

module _ {P : Type 0} (codec : Codec P) where
  incoming_loop-data :
      (cs rest pending : List DenimChunk) (payloads : List P)
      → AllData cs
      → incoming_loop codec (cs ++ rest) pending payloads
        ≡ incoming_loop codec rest (pending ++ cs) payloads
  unfolding incoming_loop
  incoming_loop-data [] rest pending payloads h = rw append-nil
  incoming_loop-data (c ∷ cs) rest pending payloads h =
      rw (incoming_loop, not_final c h.0)
        (incoming_loop-data cs rest (pending ++ c ∷ []) payloads h.1
          ∙ ap (λ x. incoming_loop codec rest x payloads) (append_assoc pending (c ∷ []) cs))

  incoming_loop-final :
      (bytes : List ℕ) (rest pending : List DenimChunk) (payloads : List P) (p : P)
      → flat_chunks (sort pending ++ final_chunk bytes ∷ []) ≡ codec.serialize p
      → incoming_loop codec (final_chunk bytes ∷ rest) pending payloads
        ≡ incoming_loop codec rest [] (payloads ++ p ∷ [])
  unfolding incoming_loop is_final
  incoming_loop-final bytes rest pending payloads p e = rw (e, codec.deserialize-serialize p) refl

  -- Without a final chunk the chunks are put behind.
  incoming_loop_all :
      (cs pending : List DenimChunk) (payloads : List P)
      → AllData cs
      → incoming_loop codec cs pending payloads ≡ ok (payloads, pending ++ cs)
  unfolding incoming_loop
  incoming_loop_all [] pending payloads h = rw append-nil refl
  incoming_loop_all (c ∷ cs) pending payloads h =
      rw (incoming_loop, not_final c h.0)
        (incoming_loop_all cs (pending ++ c ∷ []) payloads h.1
          ∙ ap (λ x. ok (payloads, x)) (append_assoc pending (c ∷ []) cs))

  module _ {E : Type 0} (engine : Engine E) (law : IsTable engine) (sound : IsSound engine) where
    keep_chunks-Ends :
        (cs : List DenimChunk) (t : Tables) (s : E)
        → Ends (keep_chunks codec engine cs (t, s)) λ _ st. Permᴰ (held st.0) (cs ++ held t)
    keep_chunks-Ends [] t s = Permᴰ.refl (held t)
    keep_chunks-Ends (c ∷ cs) t s =
        stored-Ends (store_incoming_deniable_chunks engine (c ∷ cs) (t, s)) _
          (store_incoming_deniable_chunks-Ends engine sound law (c ∷ cs) t s)

    -- What is left of the new chunks is kept.
    after_loop :
        (o : Outcome SignalClientError (List P × List DenimChunk)) (payloads : List P)
        (left : List DenimChunk) (t : Tables) (s : E)
        → o ≡ ok (payloads, left)
        → Ends
            (go_on (o, (t, s)) λ r. keep_chunks codec engine r.1 >> return r.0)
            λ got st. (got ≡ payloads) × Permᴰ (held st.0) (left ++ held t)
    after_loop o payloads left t s e = rw e (
        go_on-Ends {E = SignalClientError} {A = Unit {0}} {B = List P}
          (keep_chunks codec engine left (t, s)) _ (λ _ st. Permᴰ (held st.0) (left ++ held t)) _
          (keep_chunks-Ends left t s) λ _ st p. (refl, p))

    handle_data :
        (new : List DenimChunk) (t : Tables) (s : E)
        → AllData new
        → Ends
            (handle_incoming_chunks codec engine new (t, s))
            λ got st. (got ≡ []) × Permᴰ (held st.0) (new ++ held t)
    unfolding handle_incoming_chunks
    handle_data new t s h =
        rw (AllData-no_final new h)
          (after_loop (incoming_loop codec new [] []) [] new t s (incoming_loop_all new [] [] h))

    handle_last :
        (front after : List DenimChunk) (bytes : List ℕ) (p : P) (sent : List DenimChunk)
        (t : Tables) (s : E)
        → Permᴰ (held t ++ front) sent
        → Descends (pos 1) sent
        → codec.serialize p ≡ flat_chunks sent ++ bytes
        → AllData front
        → AllData after
        → Ends
            (handle_incoming_chunks codec engine (front ++ final_chunk bytes ∷ after) (t, s))
            λ got st. (got ≡ p ∷ []) × Permᴰ (held st.0) after
    unfolding handle_incoming_chunks
    handle_last front after bytes p sent t s perm falls whole ordinary ordinary' =
        rw (has_final-append front after bytes) (
          go_on-Ends {E = SignalClientError} {A = List DenimChunk} {B = List P}
            (stored (get_and_remove_incoming_deniable_chunks engine) (t, s)) _
            (λ got st. Taken engine t got st.0) _
            (stored-Ends (get_and_remove_incoming_deniable_chunks engine (t, s)) _
              (get_and_remove_incoming_deniable_chunks-Ends engine sound law t s))
            λ got st (taken, gone, ordered).
              let all : Permᴰ (got ++ front) sent =
                Permᴰ.trans (Permᴰ.append_right front taken) perm in
              let sorted : sort (got ++ front) ≡ sent =
                sort-perm (pos 1) (got ++ front) sent ∣ all ∣₁ falls in
              let joined : flat_chunks (sort (got ++ front) ++ final_chunk bytes ∷ [])
                  ≡ codec.serialize p =
                ap (λ x. flat_chunks (x ++ final_chunk bytes ∷ [])) sorted
                ∙ flat_chunks-append sent (final_chunk bytes ∷ [])
                ∙ ap (◌++◌ (flat_chunks sent)) (append-nil bytes)
                ∙ sym whole in
              let looped =
                incoming_loop-data front (final_chunk bytes ∷ after) got [] ordinary
                ∙ incoming_loop-final bytes after (got ++ front) [] p joined
                ∙ incoming_loop_all after [] (p ∷ []) ordinary' in
              Ends-map {E = SignalClientError} {A = List P}
                (go_on (incoming_loop codec (front ++ final_chunk bytes ∷ after) got [], st)
                  λ r. keep_chunks codec engine r.1 >> return r.0)
                (λ payloads st'. (payloads ≡ p ∷ []) × Permᴰ (held st'.0) (after ++ held st.0)) _
                (after_loop (incoming_loop codec (front ++ final_chunk bytes ∷ after) got [])
                  (p ∷ []) after st.0 st.1 looped)
                λ payloads st' (same, kept). (
                  same,
                  subst (Permᴰ (held st'.0))
                      (ap (◌++◌ after) (nothing_left st.0 gone) ∙ append-nil after) kept,
                ))

    receive_data :
        (chunks kept : List DenimChunk) (t : Tables) (s : E)
        → without_dummies chunks ≡ kept
        → AllData kept
        → Ends
            (receive_chunks codec engine chunks (t, s))
            λ got st. (got ≡ []) × Permᴰ (held st.0) (kept ++ held t)
    unfolding receive_chunks
    receive_data chunks [] t s e h = rw e (refl, Permᴰ.refl (held t))
    receive_data chunks (c ∷ kept) t s e h = rw e (handle_data (c ∷ kept) t s h)

    receive_last :
        (chunks front after : List DenimChunk) (bytes : List ℕ) (p : P) (sent : List DenimChunk)
        (t : Tables) (s : E)
        → without_dummies chunks ≡ front ++ final_chunk bytes ∷ after
        → Permᴰ (held t ++ front) sent
        → Descends (pos 1) sent
        → codec.serialize p ≡ flat_chunks sent ++ bytes
        → AllData front
        → AllData after
        → Ends
            (receive_chunks codec engine chunks (t, s))
            λ got st. (got ≡ p ∷ []) × Permᴰ (held st.0) after
    unfolding receive_chunks
    receive_last chunks [] after bytes p sent t s e perm falls whole ordinary ordinary' =
        rw e (handle_last [] after bytes p sent t s perm falls whole ordinary ordinary')
    receive_last chunks (c ∷ front) after bytes p sent t s e perm falls whole ordinary ordinary' =
        rw e (handle_last (c ∷ front) after bytes p sent t s perm falls whole ordinary ordinary')

    -- What was kept before a message, after it and from the next ones is still the payload.
    still_sent :
        (now before new later last sent : List DenimChunk)
        → Permᴰ now (new ++ before)
        → Permᴰ (before ++ ((new ++ later) ++ last)) sent
        → Permᴰ (now ++ (later ++ last)) sent
    still_sent now before new later last sent kept perm =
        Permᴰ.trans (Permᴰ.append_right (later ++ last) kept) (
          Permᴰ.trans (Permᴰ.append_right (later ++ last) (Permᴰ.append_comm new before)) (
            subst (λ x. Permᴰ x sent)
              (ap (◌++◌ before) (append_assoc new later last)
                ∙ sym (append_assoc before new (later ++ last)))
              perm))

    -- A payload that was cut into chunks arrives with any number of messages, its data chunks in any
    -- order and mixed with dummies, the final one last: the client gives exactly this payload, once, and
    -- keeps in its database what came behind the final chunk, data chunks and dummies, of which the dummies
    -- are dropped, and nothing else. What had arrived before may
    -- be in the database already. Given that the flags of the data chunks fall in the order of sending, that
    -- no call of the database fails, a query gives every row and a new row gets an identifier of its own.
    pub receive_all-arrives :
        (messages : List (List DenimChunk)) (last after : List DenimChunk) (bytes : List ℕ) (p : P)
        (sent : List DenimChunk) (t : Tables) (s : E)
        → Permᴰ (held t ++ (all_kept messages ++ without_dummies last)) sent
        → Descends (pos 1) sent
        → codec.serialize p ≡ flat_chunks sent ++ bytes
        → AllData (without_dummies after)
        → Ends
            (receive_all codec engine (messages ++ (last ++ final_chunk bytes ∷ after) ∷ []) (t, s))
            λ got st. (got ≡ p ∷ []) × Permᴰ (held st.0) (without_dummies after)
    receive_all-arrives [] last after bytes p sent t s perm falls whole ordinary =
        let data_of : AllData (held t ++ without_dummies last) =
          AllData-perm perm (Descends-AllData (pos 1) sent (omega arith) falls) in
        go_on-Ends {E = SignalClientError} {A = List P} {B = List P}
          (receive_chunks codec engine (last ++ final_chunk bytes ∷ after) (t, s)) _
          (λ got st. (got ≡ p ∷ []) × Permᴰ (held st.0) (without_dummies after)) _
          (receive_last (last ++ final_chunk bytes ∷ after) (without_dummies last)
            (without_dummies after) bytes p sent t s (without_dummies-append last after bytes) perm
            falls whole (AllData-back (held t) (without_dummies last) data_of) ordinary)
          λ got st (same, kept). (append-nil got ∙ same, kept)
    receive_all-arrives (m ∷ messages) last after bytes p sent t s perm falls whole ordinary =
        let new = without_dummies m in
        let data_of : AllData (held t ++ ((new ++ all_kept messages) ++ without_dummies last)) =
          AllData-perm perm (Descends-AllData (pos 1) sent (omega arith) falls) in
        go_on-Ends {E = SignalClientError} {A = List P} {B = List P}
          (receive_chunks codec engine m (t, s)) _
          (λ got st. (got ≡ []) × Permᴰ (held st.0) (new ++ held t)) _
          (receive_data m new t s refl (
            AllData-front new (all_kept messages) (
              AllData-front (new ++ all_kept messages) (without_dummies last)
                (AllData-back (held t) _ data_of))))
          λ got st (nothing, kept).
            go_on-Ends {E = SignalClientError} {A = List P} {B = List P}
              (receive_all codec engine (messages ++ (last ++ final_chunk bytes ∷ after) ∷ []) st) _
              (λ more st'. (more ≡ p ∷ []) × Permᴰ (held st'.0) (without_dummies after)) _
              (receive_all-arrives messages last after bytes p sent st.0 st.1
                (still_sent (held st.0) (held t) new (all_kept messages) (without_dummies last) sent
                  kept perm)
                falls whole ordinary)
              λ more st' (same, left). (rw nothing same, left)
