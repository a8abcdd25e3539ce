-- ===== src/KeyManagers/Client/Identifiers.antt =====
-- The identifiers of the keys that the client makes.
use denim.Prelude.{
  ℕ, zero, suc, ◌+◌, ◌≡◌, sym, ap, ◌∙◌, Option, none, some, List, [], ◌∷◌, ◌++◌, map, append-nil,
  ok, arith,
}
use denim.Prelude.Dict.{get, insert, get-insert}
use denim.Prelude.Effects.{Gives, go_on-Gives, Gives-map}
use denim.WebApi.{SetKeyRequest, UploadPreKey, UploadSignedPreKey}
use denim.KeyManagers.Client.{
  bundle_size, upload, upload_signed, KeyPair, PreKeyType, signed, kyber, one_time, KeyManager,
  KeyManagerError, Signal, PreKeyRecord, SignedPreKeyRecord, get_new_key_id, generate_pre_key,
  generate_signed_pre_key, generate_kyber_pre_key, keys_loop, generate_key_bundle, pre_key_type_eq,
}

-- The next identifiers of one-time, Kyber and signed pre-keys.
pub record Next (manager : KeyManager) (o k g : ℕ) : Type 0 where
  pub next_one_time : get manager.key_incrementer_map one_time ≡ some o
  pub next_kyber : get manager.key_incrementer_map kyber ≡ some k
  pub next_signed : get manager.key_incrementer_map signed ≡ some g

-- `n` identifiers from one on.
abbrev pub from : ℕ → ℕ → List ℕ
from zero id = []
from (suc n) id = id ∷ from n (id + 1)

Next-at : (m : KeyManager) (o o' k k' g : ℕ) → o ≡ o' → k ≡ k' → Next m o k g → Next m o' k' g
Next-at m o o' k k' g e f h = rw (← e, ← f) h

map-last :
    {A : Type 0} (f : A → ℕ) (xs : List A) (x : A) (l : List ℕ) (n : ℕ)
    → f x ≡ n
    → map f (xs ++ x ∷ []) ++ l ≡ map f xs ++ n ∷ l
map-last f [] x l n e = ap (λ i. i ∷ l) e
map-last f (y ∷ xs) x l n e = ap (◌∷◌ (f y)) (map-last f xs x l n e)

-- libsignal gives a Kyber record the identifier that it is asked for.
abbrev pub KeepsId : {S X : Type 0} → Signal S X → Type 0
KeepsId {S} {X} signal =
    (id : ℕ) (identity : KeyPair) (s : S) (r : SignedPreKeyRecord)
    → (signal.generate_kyber id identity s).0 ≡ ok r
    → r.id ≡ id

abbrev pub mapped : {A B : Type 0} → (A → B) → Option A → Option B
mapped f none = none
mapped f (some a) = some (f a)

-- The identifiers in an upload.
pub record Uploads (b : SetKeyRequest) (one_times kybers : List ℕ) (last_resort signed_one : ℕ)
    : Type 0 where
  pub one_time_ids : mapped (map λ x. x.key_id) b.pre_key ≡ some one_times
  pub kyber_ids : mapped (map λ x. x.key_id) b.pq_pre_key ≡ some kybers
  pub last_resort_id : mapped (λ x. x.key_id) b.pq_last_resort_pre_key ≡ some last_resort
  pub signed_id : mapped (λ x. x.key_id) b.signed_pre_key ≡ some signed_one

module _ {S X : Type 0} (signal : Signal S X) (keeps : KeepsId signal) where
  -- An identifier is the entry of its kind, which goes up by one.
  new_id :
      (t : PreKeyType) (id : ℕ) (m : KeyManager) (s : S)
      → get m.key_incrementer_map t ≡ some id
      → Gives (get_new_key_id signal t (m, s)) λ new st.
        (new ≡ id)
        × (st.0 ≡ record { key_incrementer_map = insert m.key_incrementer_map t (id + 1) })
  unfolding get_new_key_id
  new_id t id m s e = ground (arith, e)

  bump :
      (m : KeyManager) (o k g : ℕ)
      → Next m o k g
      → Next
          (record { key_incrementer_map = insert m.key_incrementer_map one_time (o + 1) })
          (o + 1)
          k
          g
        × Next
            (record { key_incrementer_map = insert m.key_incrementer_map kyber (k + 1) })
            o
            (k + 1)
            g
        × Next
            (record { key_incrementer_map = insert m.key_incrementer_map signed (g + 1) })
            o
            k
            (g + 1)
  bump m o k g h = (
    record {
      next_one_time = get-insert m.key_incrementer_map one_time (o + 1) one_time;
      next_kyber = get-insert m.key_incrementer_map one_time (o + 1) kyber ∙ h.next_kyber;
      next_signed = get-insert m.key_incrementer_map one_time (o + 1) signed ∙ h.next_signed;
    },
    record {
      next_one_time = get-insert m.key_incrementer_map kyber (k + 1) one_time ∙ h.next_one_time;
      next_kyber = get-insert m.key_incrementer_map kyber (k + 1) kyber;
      next_signed = get-insert m.key_incrementer_map kyber (k + 1) signed ∙ h.next_signed;
    },
    record {
      next_one_time = get-insert m.key_incrementer_map signed (g + 1) one_time ∙ h.next_one_time;
      next_kyber = get-insert m.key_incrementer_map signed (g + 1) kyber ∙ h.next_kyber;
      next_signed = get-insert m.key_incrementer_map signed (g + 1) signed;
    },
  )

  generate_pre_key-Next :
      (m : KeyManager) (o k g : ℕ) (s : S)
      → Next m o k g
      → Gives (generate_pre_key signal (m, s)) λ r st. (r.id ≡ o) × Next st.0 (o + 1) k g
  unfolding generate_pre_key
  generate_pre_key-Next m o k g s h =
      go_on-Gives {E = KeyManagerError X} {A = ℕ} {B = PreKeyRecord}
        (get_new_key_id signal one_time (m, s)) _ _ _ (new_id one_time o m s h.next_one_time)
        λ id st (same, left).
          let next : Next st.0 (o + 1) k g = rw left (bump m o k g h).0 in
          ground (arith, same, next)

  generate_kyber_pre_key-Next :
      (m : KeyManager) (o k g : ℕ) (s : S)
      → Next m o k g
      → Gives (generate_kyber_pre_key signal (m, s)) λ r st. (r.id ≡ k) × Next st.0 o (k + 1) g
  unfolding generate_kyber_pre_key
  generate_kyber_pre_key-Next m o k g s h =
      go_on-Gives {E = KeyManagerError X} {A = ℕ} {B = SignedPreKeyRecord}
        (get_new_key_id signal kyber (m, s)) _ _ _ (new_id kyber k m s h.next_kyber)
        λ id st (same, left).
          let next : Next st.0 o (k + 1) g = rw left (bump m o k g h).1 in
          grind (arith, same, next, keeps)

  generate_signed_pre_key-Next :
      (m : KeyManager) (o k g : ℕ) (s : S)
      → Next m o k g
      → Gives (generate_signed_pre_key signal (m, s)) λ r st. (r.id ≡ g) × Next st.0 o k (g + 1)
  unfolding generate_signed_pre_key
  generate_signed_pre_key-Next m o k g s h =
      go_on-Gives {E = KeyManagerError X} {A = ℕ} {B = SignedPreKeyRecord}
        (get_new_key_id signal signed (m, s)) _ _ _ (new_id signed g m s h.next_signed)
        λ id st (same, left).
          let next : Next st.0 o k (g + 1) = rw left (bump m o k g h).2 in
          ground (arith, same, next)

  -- The loop takes as many identifiers of either kind as it has rounds, one after the other.
  keys_loop-from :
      (n : ℕ) (pre : List UploadPreKey) (pq : List UploadSignedPreKey) (m : KeyManager) (o k g : ℕ)
      (s : S)
      → Next m o k g
      → Gives (keys_loop signal n pre pq (m, s)) λ r st.
        (map (λ x. x.key_id) r.0 ≡ map (λ x. x.key_id) pre ++ from n o)
        × (map (λ x. x.key_id) r.1 ≡ map (λ x. x.key_id) pq ++ from n k)
        × Next st.0 (o + n) (k + n) g
  unfolding keys_loop
  keys_loop-from zero pre pq m o k g s h = (
    sym (append-nil _),
    sym (append-nil _),
    Next-at m o (o + 0) k (k + 0) g (omega arith) (omega arith) h,
  )
  keys_loop-from (suc n) pre pq m o k g s h =
      go_on-Gives {E = KeyManagerError X} {A = PreKeyRecord}
        {B = List UploadPreKey × List UploadSignedPreKey} (generate_pre_key signal (m, s)) _ _ _
        (generate_pre_key-Next m o k g s h)
        λ a st (id_a, next).
          go_on-Gives {E = KeyManagerError X} {A = SignedPreKeyRecord}
            {B = List UploadPreKey × List UploadSignedPreKey} (generate_kyber_pre_key signal st) _ _
            _ (generate_kyber_pre_key-Next st.0 (o + 1) k g st.1 next)
            λ b st' (id_b, next').
              Gives-map {E = KeyManagerError X} {A = List UploadPreKey × List UploadSignedPreKey}
                (keys_loop signal n (pre ++ upload a ∷ []) (pq ++ upload_signed b ∷ []) st') _ _
                (keys_loop-from n (pre ++ upload a ∷ []) (pq ++ upload_signed b ∷ []) st'.0 (o + 1)
                  (k + 1) g st'.1 next')
                λ r st'' (pres, pqs, next''). (
                  pres ∙ map-last (λ x. x.key_id) pre (upload a) (from n (o + 1)) o id_a,
                  pqs ∙ map-last (λ x. x.key_id) pq (upload_signed b) (from n (k + 1)) k id_b,
                  Next-at st''.0 (o + 1 + n) (o + suc n) (k + 1 + n) (k + suc n) g (omega arith)
                      (omega arith) next'',
                )

  -- The identifiers of a bundle follow those handed out before without a gap or a repetition: one
  -- hundred of one-time keys, one hundred of Kyber keys and one more for the last resort, and one of
  -- the signed key; the next bundle goes on behind them. Given that each kind has a next identifier,
  -- and that libsignal keeps the identifier that it is asked for.
  pub generate_key_bundle-from :
      (m : KeyManager) (o k g : ℕ) (s : S)
      → Next m o k g
      → Gives (generate_key_bundle signal (m, s)) λ b st.
        Uploads b (from bundle_size o) (from bundle_size k) (k + bundle_size) g
        × Next st.0 (o + bundle_size) (k + bundle_size + 1) (g + 1)
  unfolding generate_key_bundle
  generate_key_bundle-from m o k g s h =
      go_on-Gives {E = KeyManagerError X} {A = List UploadPreKey × List UploadSignedPreKey}
        {B = SetKeyRequest} (keys_loop signal bundle_size [] [] (m, s)) _ _ _
        (keys_loop-from bundle_size [] [] m o k g s h)
        λ r st (pres, pqs, next).
          go_on-Gives {E = KeyManagerError X} {A = SignedPreKeyRecord} {B = SetKeyRequest}
            (generate_signed_pre_key signal st) _ _ _
            (generate_signed_pre_key-Next st.0 (o + bundle_size) (k + bundle_size) g st.1 next)
            λ a st' (id_a, next').
              go_on-Gives {E = KeyManagerError X} {A = SignedPreKeyRecord} {B = SetKeyRequest}
                (generate_kyber_pre_key signal st') _ _ _
                (generate_kyber_pre_key-Next st'.0 (o + bundle_size) (k + bundle_size) (g + 1) st'.1
                  next')
                λ b st'' (id_b, next''). (
                  record {
                    one_time_ids = ap some pres;
                    kyber_ids = ap some pqs;
                    last_resort_id = ap some id_b;
                    signed_id = ap some id_a;
                  },
                  next'',
                )
