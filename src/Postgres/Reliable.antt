-- ===== src/Postgres/Reliable.antt =====
-- What the statements of server/src/storage/postgres.rs leave when a call of the database fails, and the
-- one-time keys that a device stores.
use mathlib.Core.List.{Permᴰ}
use mathlib.Core.List.Permᴰ
use denim.Prelude.{
  ℕ, ◌≡◌, refl, sym, ap, ◌∙◌, Bool, true, false, not, String, List, [], ◌∷◌, ◌++◌, append-nil, map,
  Outcome, ok, err, panic, out_of_fuel, Run, if◌then◌else◌, arith, Bool-cases, inl, inr, subst,
}
use denim.Prelude as errors
use denim.Prelude.Effects.{AllOrNothing, Gives, go_on-Gives, Gives-map, go_on, return, ◌>>=◌, ◌>>◌}
use denim.Text.{decimal}
use denim.Account.{ProtocolAddress, ServiceIds}
use denim.WebApi.{UploadPreKey}
use denim.Postgres.{
  DeviceRow, OneTimeKeyRow, Tables, Engine, Steps, called, given, settle, transaction, writing,
  where_rows, addressed_devices, is_one_of,
}
use denim.Postgres.Accounts.{violation}
use denim.Postgres.OneTime.{insert_ec_key, insert_each, store_one_time_ec_pre_keys}

-- A call of the library leaves the tables alone.
pub after_call :
    {E B : Type 0} (r : Outcome String (Unit {0}) × E) (t : Tables) (k : Unit {0} → Steps E B)
    (Q : B → Tables × E → Type 0)
    → ((s : E) → Gives (k tt (t, s)) Q)
    → Gives (go_on (r.0, (t, r.1)) k) Q
after_call (ok tt, s) t k Q h = h s
after_call (err e, s) t k Q h = tt
after_call (panic, s) t k Q h = tt
after_call (out_of_fuel, s) t k Q h = tt

-- What a write leaves, if it ends in tables.
pub writing-Gives :
    {E : Type 0} (engine : Engine E) (f : Tables → Run Tables) (t : Tables) (s : E)
    (P : Tables → Type 0)
    → ((t' : Tables) → f t ≡ ok t' → P t')
    → Gives (writing engine f (t, s)) λ _ st. P st.0
writing-Gives {E} engine f t s P h =
    after_call (engine.query s) t (λ _ st. given st (errors.◌>>=◌ (f st.0) λ t'. ok (tt, t')))
      (λ _ st. P st.0) λ s1. ends s1 (f t) h
  where
    ends :
        (s1 : E) (o : Run Tables)
        → ((t' : Tables) → o ≡ ok t' → P t')
        → Gives (given (t, s1) (errors.◌>>=◌ o λ t'. ok (tt, t'))) λ _ st. P st.0
    ends s1 (ok t') k = k t' refl
    ends s1 (err e) k = tt
    ends s1 panic k = tt
    ends s1 out_of_fuel k = tt

-- What a write for the devices of an address leaves.
pub addressed-Gives :
    {E : Type 0} (engine : Engine E) (f : List DeviceRow → Tables → Run Tables)
    (address : ProtocolAddress) (ds : List DeviceRow) (t : Tables) (s : E) (P : Tables → Type 0)
    → addressed_devices address t ≡ ok ds
    → ((t' : Tables) → f ds t ≡ ok t' → P t')
    → Gives
        (writing engine (λ t. errors.◌>>=◌ (addressed_devices address t) λ ds. f ds t) (t, s))
        λ _ st. P st.0
addressed-Gives engine f address ds t s P found h =
    writing-Gives engine _ t s P
      λ t' left. h t' (sym (ap (λ o. errors.◌>>=◌ o λ ds. f ds t) found) ∙ left)

settle-AllOrNothing :
    {E A : Type 0} (t : Tables) (r : Outcome String A × (Tables × E)) (P : A → Tables → Type 0)
    → Gives r (λ a st. P a st.0)
    → AllOrNothing t (settle t r) P
settle-AllOrNothing t (ok a, st) P h = h
settle-AllOrNothing t (err e, st) P h = refl
settle-AllOrNothing t (panic, st) P h = refl
settle-AllOrNothing t (out_of_fuel, st) P h = refl

transaction-AllOrNothing :
    {E A : Type 0} (engine : Engine E) (body : Steps E A) (t : Tables) (s : E)
    (P : A → Tables → Type 0)
    → ((s1 : E) → Gives (body (t, s1)) λ a st. P a st.0)
    → AllOrNothing t (transaction engine body (t, s)) P
transaction-AllOrNothing {E} {A} engine body t s P h =
    settle-AllOrNothing t
      ((called engine.begin >> (body >>= λ a. called engine.commit >> return a)) (t, s)) P
      (after_call (engine.begin s) t _ (λ a st. P a st.0)
        λ s1.
          go_on-Gives {E = String} {A = A} {B = A} (body (t, s1)) _ (λ a st. P a st.0)
            (λ a st. P a st.0) (h s1)
            λ a st p.
              after_call (engine.commit st.1) st.0 (λ _. return a) (λ a st. P a st.0) λ s3. p)

-- The rows of keys of a device, the last one first, in front of others.
abbrev pub with_keys : ℕ → List UploadPreKey → List OneTimeKeyRow → List OneTimeKeyRow
with_keys owner [] rows = rows
with_keys owner (k ∷ keys) rows =
    with_keys owner keys
      (record { owner = owner; key_id = decimal k.key_id; public_key = k.public_key } ∷ rows)

-- The tables with other one-time keys.
abbrev pub with_store : Tables → List OneTimeKeyRow → Tables
with_store t rows = record t { one_time_ec_pre_key_store = rows }

-- What is left if a constraint is not violated.
unless_violated : (b : Bool) (t t' : Tables) → (if b then violation else ok t) ≡ ok t' → t' ≡ t
unless_violated true t t' h = cc
unless_violated false t t' h = cc

module _ {E : Type 0} (engine : Engine E) (ids : ServiceIds) (address : ProtocolAddress)
    (d : DeviceRow) where
  insert_ec_key-grows :
      (k : UploadPreKey) (t t' : Tables)
      → insert_ec_key engine ids (d ∷ []) k t ≡ ok t'
      → t' ≡ with_store t (with_keys d.id (k ∷ []) t.one_time_ec_pre_key_store)
  unfolding insert_ec_key decimal
  insert_ec_key-grows k t t' h = unless_violated _ _ t' h

  insert_each-grows :
      (keys : List UploadPreKey) (t : Tables) (s : E)
      → addressed_devices address t ≡ ok (d ∷ [])
      → Gives
          (insert_each engine ids (insert_ec_key engine ids) address keys (t, s))
          λ _ st. st.0 ≡ with_store t (with_keys d.id keys t.one_time_ec_pre_key_store)
  insert_each-grows [] t s found = refl
  insert_each-grows (k ∷ keys) t s found =
      let rows = with_keys d.id (k ∷ []) t.one_time_ec_pre_key_store in
      go_on-Gives {E = String} {A = Unit {0}} {B = Unit {0}} (writing engine _ (t, s)) _
        (λ _ st. st.0 ≡ with_store t rows) _
        (addressed-Gives engine (λ ds. insert_ec_key engine ids ds k) address (d ∷ []) t s
          (λ t'. t' ≡ with_store t rows) found (insert_ec_key-grows k t))
        λ _ st same.
          subst
            (λ x.
              Gives (insert_each engine ids (insert_ec_key engine ids) address keys (x, st.1))
                λ _ st'.
                  st'.0 ≡ with_store t (with_keys d.id (k ∷ keys) t.one_time_ec_pre_key_store))
            (sym same) (insert_each-grows keys (with_store t rows) st.1 found)

-- The row of a key.
abbrev pub row_of : ℕ → UploadPreKey → OneTimeKeyRow
row_of owner k = record { owner = owner; key_id = decimal k.key_id; public_key = k.public_key }

abbrev pub rows_of : List DeviceRow → List OneTimeKeyRow → List OneTimeKeyRow
rows_of ds rows = where_rows (λ r. is_one_of ds r.owner) rows

abbrev pub other_rows : List DeviceRow → List OneTimeKeyRow → List OneTimeKeyRow
other_rows ds rows = where_rows (λ r. not (is_one_of ds r.owner)) rows

where_rows-none :
    {A : Type 0} (p : A → Bool) (rows : List A)
    → where_rows p (where_rows (λ a. not (p a)) rows) ≡ []
where_rows-none p [] = refl
where_rows-none p (a ∷ rows) = elim (Bool-cases (p a)) [
  | inl chosen ↦ rw chosen (where_rows-none p rows)
  | inr left ↦ rw (left, left) (where_rows-none p rows)
]

where_rows-twice :
    {A : Type 0} (p : A → Bool) (rows : List A)
    → where_rows p (where_rows p rows) ≡ where_rows p rows
where_rows-twice p [] = refl
where_rows-twice p (a ∷ rows) = elim (Bool-cases (p a)) [
  | inl chosen ↦ rw (chosen, chosen) (ap (λ x. a ∷ x) (where_rows-twice p rows))
  | inr left ↦ rw left (where_rows-twice p rows)
]

module _ (d : DeviceRow) where
  its_row : (k : UploadPreKey) → is_one_of (d ∷ []) (row_of d.id k).owner ≡ true
  its_row k = ground arith

  with_keys-own :
      (keys : List UploadPreKey) (rows : List OneTimeKeyRow)
      → Permᴰ
          (rows_of (d ∷ []) (with_keys d.id keys rows))
          (map (row_of d.id) keys ++ rows_of (d ∷ []) rows)
  with_keys-own [] rows = Permᴰ.refl (rows_of (d ∷ []) rows)
  with_keys-own (k ∷ keys) rows =
      let grown : rows_of (d ∷ []) (row_of d.id k ∷ rows) ≡ row_of d.id k ∷ rows_of (d ∷ []) rows =
        rw (its_row k) refl in
      Permᴰ.trans (with_keys-own keys (row_of d.id k ∷ rows))
        (rw grown (Permᴰ.middle (row_of d.id k) (map (row_of d.id) keys) (rows_of (d ∷ []) rows)))

  with_keys-other :
      (keys : List UploadPreKey) (rows : List OneTimeKeyRow)
      → other_rows (d ∷ []) (with_keys d.id keys rows) ≡ other_rows (d ∷ []) rows
  with_keys-other [] rows = refl
  with_keys-other (k ∷ keys) rows =
      with_keys-other keys (row_of d.id k ∷ rows) ∙ rw (its_row k) refl

-- The device has these keys and no others, and the other devices have theirs.
abbrev pub Replaced : DeviceRow → List UploadPreKey → Tables → Tables → Type 0
Replaced d keys t t' =
    let rows = t'.one_time_ec_pre_key_store in
    (t' ≡ with_store t rows)
    × Permᴰ (rows_of (d ∷ []) rows) (map (row_of d.id) keys)
    × (other_rows (d ∷ []) rows ≡ other_rows (d ∷ []) t.one_time_ec_pre_key_store)

-- Storing one-time keys for an address that is a single device's: afterwards the device has these keys
-- and no others, every other device has the keys it had, and no other table has changed; or the call
-- fails, whichever statement it is at, and all tables are as before.
pub store_one_time_ec_pre_keys-Replaced :
    {E : Type 0} (engine : Engine E) (ids : ServiceIds) (keys : List UploadPreKey)
    (address : ProtocolAddress) (d : DeviceRow) (t : Tables) (s : E)
    → addressed_devices address t ≡ ok (d ∷ [])
    → AllOrNothing t
        (store_one_time_ec_pre_keys engine ids keys address (t, s))
        λ _. Replaced d keys t
unfolding store_one_time_ec_pre_keys
store_one_time_ec_pre_keys-Replaced {E} engine ids keys address d t s found =
    let rest = other_rows (d ∷ []) t.one_time_ec_pre_key_store in
    transaction-AllOrNothing engine _ t s (λ _. Replaced d keys t)
      λ s1.
        go_on-Gives {E = String} {A = Unit {0}} {B = Unit {0}} (writing engine _ (t, s1)) _
          (λ _ st. st.0 ≡ with_store t rest) _
          (addressed-Gives engine
            (λ ds t. ok (with_store t (other_rows ds t.one_time_ec_pre_key_store))) address (d ∷ [])
            t s1 (λ t'. t' ≡ with_store t rest) found
            λ t'. unless_violated false (with_store t rest) t')
          λ _ st same.
            Gives-map {E = String} {A = Unit {0}}
              (insert_each engine ids (insert_ec_key engine ids) address keys st)
              (λ _ st'. st'.0 ≡ with_store t (with_keys d.id keys rest)) _
              (subst
                (λ x.
                  Gives (insert_each engine ids (insert_ec_key engine ids) address keys (x, st.1))
                    λ _ st'. st'.0 ≡ with_store t (with_keys d.id keys rest))
                (sym same)
                (insert_each-grows engine ids address d keys (with_store t rest) st.1 found))
              λ _ st' all. subst (Replaced d keys t) (sym all) (
                refl,
                subst (λ x. Permᴰ (rows_of (d ∷ []) (with_keys d.id keys rest)) x)
                    (ap (λ x. map (row_of d.id) keys ++ x)
                        (where_rows-none (λ r. is_one_of (d ∷ []) r.owner)
                          t.one_time_ec_pre_key_store)
                      ∙ append-nil (map (row_of d.id) keys))
                    (with_keys-own d keys rest),
                with_keys-other d keys rest
                    ∙ where_rows-twice (λ r. not (is_one_of (d ∷ []) r.owner))
                        t.one_time_ec_pre_key_store,
              )
