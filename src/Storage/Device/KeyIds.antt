-- ===== src/Storage/Device/KeyIds.antt =====
-- The identifiers of keys after a restart of the client: `login` of client/src/client.rs goes on behind
-- the greatest ones that `get_key_ids` finds.
use denim.Prelude.{
  ℕ, nat_eq, ◌+◌, ◌≤◌, ◌<◌, ◌≡◌, refl, true, some, List, [], ◌∷◌, ok, arith, Option-cases, inl, inr,
}
use denim.Prelude.Dict.{Dict, get, assoc, contains_key}
use denim.Prelude.Effects.{Ends, Gives, Gives-map}
use denim.Text.{Text}
use denim.KeyManagers.Client.{
  KeyManager, KeyManagerError, new_key_manager, Signal, get_new_key_id, PreKeyType, signed, kyber,
  one_time, pre_key_type_eq,
}
use denim.Account.{ServiceIds}
use denim.Redis.Entries.{Base64}
use denim.Storage.{Libsignal, Tables, Engine}
use denim.Storage.Device.Profile.{max_key, get_key_ids}
use denim.Storage.Device.Reliable.{IsReliable, reading-run}

-- The stored keys of a kind.
abbrev pub stored : PreKeyType → Tables → Dict ℕ Text
stored one_time t = t.device_pre_key_store
stored signed t = t.device_signed_pre_key_store
stored kyber t = t.device_kyber_pre_key_store

-- The key manager of `login`.
abbrev pub login_manager : ℕ × ℕ × ℕ → KeyManager
login_manager (one_time_id, signed_id, kyber_id) =
    new_key_manager (signed_id + 1) (kyber_id + 1) (one_time_id + 1)

assoc-max_key :
    {A : Type 0} (rows : List (ℕ × A)) (k : ℕ) (a : A) → assoc k rows ≡ some a → k ≤ max_key rows
unfolding assoc
assoc-max_key [] k a h = cc
assoc-max_key ((j, b) ∷ rows) k a h = ground (arith, h, assoc-max_key rows k a)

below-max_key :
    {A : Type 0} (d : Dict ℕ A) (k : ℕ) → contains_key d k ≡ true → k < max_key d.entries + 1
unfolding contains_key get
below-max_key d k h = elim (Option-cases (assoc k d.entries)) [
  | inl missing ↦ ground (arith, h, missing)
  | inr (a, there) ↦ omega (arith, assoc-max_key d.entries k a there)
]

given_id :
    {S X : Type 0} (makes : Signal S X) (kind : PreKeyType) (m : KeyManager) (n : ℕ) (r : S)
    → get m.key_incrementer_map kind ≡ some n
    → Gives (get_new_key_id makes kind (m, r)) λ new _. new ≡ n
unfolding get_new_key_id
given_id makes kind m n r h = ground (arith, h)

next_of :
    (next : PreKeyType → ℕ) (kind : PreKeyType)
    → get (new_key_manager (next signed) (next kyber) (next one_time)).key_incrementer_map kind
      ≡ some (next kind)
unfolding get
next_of next signed = refl
next_of next kyber = refl
next_of next one_time = refl

module _ {E I P R N : Type 0} (engine : Engine E) (law : IsReliable engine) (base64 : Base64)
    (signal : Libsignal I P R N) (ids : ServiceIds) {S X : Type 0} (makes : Signal S X) where
  -- The next identifier of each kind, after a restart, is greater than that of every key of the kind
  -- that is stored, so that no new key takes the place of one. Given that the database can be read.
  pub get_key_ids-fresh :
      (t : Tables) (s : E) (kind : PreKeyType) (r : S)
      → Ends (get_key_ids engine base64 signal ids (t, s)) λ found st.
        (st.0 ≡ t)
        × Gives
            (get_new_key_id makes kind (login_manager found, r))
            λ new _. (k : ℕ) → contains_key (stored kind t) k ≡ true → k < new
  unfolding get_key_ids
  get_key_ids-fresh t s kind r =
      let (s', eq) =
        reading-run engine law {A = ℕ × ℕ × ℕ}
          (λ t. ok (
            max_key t.device_pre_key_store.entries,
            max_key t.device_signed_pre_key_store.entries,
            max_key t.device_kyber_pre_key_store.entries,
          ))
          (
            max_key t.device_pre_key_store.entries,
            max_key t.device_signed_pre_key_store.entries,
            max_key t.device_kyber_pre_key_store.entries,
          )
          t s refl in
      let next : PreKeyType → ℕ = λ kind. max_key (stored kind t).entries + 1 in
      let m : KeyManager = new_key_manager (next signed) (next kyber) (next one_time) in
      rw eq (
        refl,
        Gives-map {E = KeyManagerError X} {A = ℕ} (get_new_key_id makes kind (m, r)) _
            (λ new _. (k : ℕ) → contains_key (stored kind t) k ≡ true → k < new)
            (given_id makes kind m (next kind) r (next_of next kind))
            λ new _ same k h. rw same (below-max_key (stored kind t) k h),
      )
