-- ===== src/KeyManagers/Server/Uploads.antt =====
-- What an upload of keys stores.
use denim.Prelude.{
  out_of_fuel, subst, String, ◌||◌, Outcome, Bool-cases, Option-cases, ℕ, ◌≡◌, refl, Bool, true,
  false, ◌⊎◌, inl, inr, Option, none, some, List, [], ◌∷◌, ◌++◌, ok, err, panic, arith,
}
use denim.Prelude.Effects.{Action, lift, on_err, return, go_on, ◌>>◌}
use denim.Server.{ApiError}
use denim.Account.{
  AuthenticatedDevice, ServiceIds, ServiceIdKind, device_protocol_address, ProtocolAddress,
}
use denim.WebApi.{SetKeyRequest, UploadPreKey, UploadSignedPreKey}
use denim.Validators.{Verify, validate_pre_key_signatures}
use denim.KeyManagers.Server.{
  KeyDatabase, database_fault, invalid_signature, identity_key_of, verify_key, verify_keys,
  optional, store_bundle, handle_put_keys,
}

-- The keys of an upload that carry a signature.
abbrev pub one : Option UploadSignedPreKey → List UploadSignedPreKey
one none = []
one (some k) = k ∷ []

abbrev pub all : Option (List UploadSignedPreKey) → List UploadSignedPreKey
all none = []
all (some ks) = ks

abbrev pub signed_keys : SetKeyRequest → List UploadSignedPreKey
signed_keys bundle =
    one bundle.signed_pre_key ++ (one bundle.pq_last_resort_pre_key ++ all bundle.pq_pre_key)

-- What an upload hands to the database: the keys that it has, in the order of the calls.
pub data Upload : Type 0 where
  one_time : List UploadPreKey → Upload
  signed : UploadSignedPreKey → Upload
  pq_one_time : List UploadSignedPreKey → Upload
  last_resort : UploadSignedPreKey → Upload

abbrev pub part_of : {A : Type 0} → (A → Upload) → Option A → List Upload
part_of f none = []
part_of f (some a) = f a ∷ []

abbrev pub uploads : SetKeyRequest → List Upload
uploads bundle =
    part_of one_time bundle.pre_key
    ++ (part_of signed bundle.signed_pre_key
        ++ (part_of pq_one_time bundle.pq_pre_key
            ++ part_of last_resort bundle.pq_last_resort_pre_key))

-- Whether libsignal gives an error instead of a verdict on one of the keys.
abbrev pub undecided : Option Bool → Bool
undecided none = true
undecided (some verdict) = false

abbrev pub any_undecided : Verify → List ℕ → List UploadSignedPreKey → Bool
any_undecided verify ik [] = false
any_undecided verify ik (k ∷ ks) =
    undecided (verify ik k.public_key k.signature) || any_undecided verify ik ks

module _ {S : Type 0} (db : KeyDatabase S) (address : ProtocolAddress) where
  abbrev pub store_upload : Upload → Action S String (Unit {0})
  store_upload (one_time keys) = db.store_one_time_ec_pre_keys keys address
  store_upload (signed key) = db.store_signed_pre_key key address
  store_upload (pq_one_time keys) = db.store_one_time_pq_pre_keys keys address
  store_upload (last_resort key) = db.store_pq_signed_pre_key key address

  -- All of them are stored, up to the first that the database fails on.
  abbrev pub store_uploads : List Upload → Action S ApiError (Unit {0})
  store_uploads [] = return tt
  store_uploads (u ∷ us) = on_err (λ _. database_fault) (store_upload u) >> store_uploads us

module _ {S : Type 0} (ids : ServiceIds) (verify : Verify) (db : KeyDatabase S) where
  -- The answers to keys that are not accepted.
  verify_keys-refuses :
      (ik : List ℕ) (ks : List UploadSignedPreKey) (s : S)
      → validate_pre_key_signatures verify ik ks ≡ false
      → (verify_keys ids verify db ik ks s ≡ (err invalid_signature, s))
        ⊎ ((verify_keys ids verify db ik ks s ≡ (panic, s)) × (any_undecided verify ik ks ≡ true))
  unfolding verify_keys verify_key validate_pre_key_signatures
  verify_keys-refuses ik [] s h = cc
  verify_keys-refuses ik (k ∷ ks) s h = ground (arith, verify_keys-refuses ik ks s)

  verify_keys-accepts :
      (ik : List ℕ) (ks : List UploadSignedPreKey) (s : S)
      → validate_pre_key_signatures verify ik ks ≡ true
      → verify_keys ids verify db ik ks s ≡ (ok tt, s)
  unfolding verify_keys verify_key validate_pre_key_signatures
  verify_keys-accepts ik [] s h = refl
  verify_keys-accepts ik (k ∷ ks) s h = ground (arith, verify_keys-accepts ik ks s)

  -- What follows from the verdict on all keys: the rest is done, or nothing.
  abbrev pub Answers :
      Bool → Bool → Outcome ApiError (Unit {0}) × S → Outcome ApiError (Unit {0}) × S → S → Type 0
  Answers true odd rest result s = result ≡ rest
  Answers false odd rest result s =
      (result ≡ (err invalid_signature, s)) ⊎ ((result ≡ (panic, s)) × (odd ≡ true))

  last_check :
      (ik : List ℕ) (c : Option (List UploadSignedPreKey)) (k : Action S ApiError (Unit {0}))
      (s : S)
      → Answers
          (validate_pre_key_signatures verify ik (all c))
          (any_undecided verify ik (all c))
          (k s)
          ((optional ids verify db (verify_keys ids verify db ik) c >> k) s)
          s
  unfolding validate_pre_key_signatures
  last_check ik none k s = refl
  last_check ik (some ks) k s = elim (Bool-cases (validate_pre_key_signatures verify ik ks)) [
    | inl good ↦ rw (good, verify_keys-accepts ik ks s good) refl
    | inr bad ↦ rw bad (elim (verify_keys-refuses ik ks s bad) [
      | inl e ↦ inl (rw e refl)
      | inr (e, odd) ↦ inr (rw e refl, odd)
    ])
  ]

  -- A check of one key in front of others.
  first_check :
      (ik : List ℕ) (a : Option UploadSignedPreKey) (ks : List UploadSignedPreKey)
      (rest : Outcome ApiError (Unit {0}) × S) (k : Action S ApiError (Unit {0})) (s : S)
      → Answers (validate_pre_key_signatures verify ik ks) (any_undecided verify ik ks) rest (k s) s
      → Answers
          (validate_pre_key_signatures verify ik (one a ++ ks))
          (any_undecided verify ik (one a ++ ks))
          rest
          ((optional ids verify db (λ key. lift (verify_key ids verify db ik key)) a >> k) s)
          s
  unfolding validate_pre_key_signatures verify_key
  first_check ik none ks rest k s h = h
  first_check ik (some a) ks rest k s h = elim (Option-cases (verify ik a.public_key a.signature)) [
    | inl odd ↦ rw odd (inr (ground (arith, odd), refl))
    | inr (true, good) ↦
        let passed : verify_key ids verify db ik a ≡ ok tt = ground (arith, good) in
        rw (good, passed) h
    | inr (false, bad) ↦ rw bad (inl (ground (arith, bad)))
  ]

  handle_put_keys-checks :
      (d : AuthenticatedDevice) (bundle : SetKeyRequest) (kind : ServiceIdKind) (s : S)
      → Answers
          (validate_pre_key_signatures verify (identity_key_of d.account kind) (signed_keys bundle))
          (any_undecided verify (identity_key_of d.account kind) (signed_keys bundle))
          (store_bundle ids verify db bundle (device_protocol_address ids d kind) s)
          (handle_put_keys ids verify db d bundle kind s)
          s
  unfolding handle_put_keys
  handle_put_keys-checks d bundle kind s =
      let ik : List ℕ = identity_key_of d.account kind in
      let store : Action S ApiError (Unit {0}) =
        store_bundle ids verify db bundle (device_protocol_address ids d kind) in
      let check : UploadSignedPreKey → Action S ApiError (Unit {0}) =
        λ key. lift (verify_key ids verify db ik key) in
      let last : Action S ApiError (Unit {0}) =
        optional ids verify db (verify_keys ids verify db ik) bundle.pq_pre_key >> store in
      first_check ik bundle.signed_pre_key
        (one bundle.pq_last_resort_pre_key ++ all bundle.pq_pre_key) (store s)
        (optional ids verify db check bundle.pq_last_resort_pre_key >> last) s
        (first_check ik bundle.pq_last_resort_pre_key (all bundle.pq_pre_key) (store s) last s
          (last_check ik bundle.pq_pre_key store s))

  then_same :
      (r : Outcome ApiError (Unit {0}) × S) (k k' : Action S ApiError (Unit {0}))
      → ((s : S) → k s ≡ k' s)
      → go_on {A = Unit {0}} {B = Unit {0}} r (λ _. k) ≡ go_on r λ _. k'
  then_same (ok a, s) k k' h = h s
  then_same (err e, s) k k' h = refl
  then_same (panic, s) k k' h = refl
  then_same (out_of_fuel, s) k k' h = refl

  then_nothing : (r : Outcome ApiError (Unit {0}) × S) → r ≡ go_on {A = Unit {0}} r λ _. return tt
  then_nothing (ok a, s) = refl
  then_nothing (err e, s) = refl
  then_nothing (panic, s) = refl
  then_nothing (out_of_fuel, s) = refl

  -- A part of the upload that may be absent, and the rest; and the last part.
  part-uploads :
      {A : Type 0} (f : A → Upload) (part : Option A) (address : ProtocolAddress)
      (rest : List Upload) (k : Action S ApiError (Unit {0})) (s : S)
      → ((t : S) → k t ≡ store_uploads db address rest t)
      → (optional ids verify db
              (λ a. on_err (λ _. database_fault) (store_upload db address (f a)))
              part
            >> k)
          s
        ≡ store_uploads db address (part_of f part ++ rest) s
  part-uploads f none address rest k s e = e s
  part-uploads f (some a) address rest k s e =
      then_same (on_err (λ _. database_fault) (store_upload db address (f a)) s) k
        (store_uploads db address rest) e

  last-uploads :
      {A : Type 0} (f : A → Upload) (part : Option A) (address : ProtocolAddress) (s : S)
      → optional ids verify db
          (λ a. on_err (λ _. database_fault) (store_upload db address (f a)))
          part
          s
        ≡ store_uploads db address (part_of f part) s
  last-uploads f none address s = refl
  last-uploads f (some a) address s =
      then_nothing (on_err (λ _. database_fault) (store_upload db address (f a)) s)

  store_bundle-uploads :
      (bundle : SetKeyRequest) (address : ProtocolAddress) (s : S)
      → store_bundle ids verify db bundle address s ≡ store_uploads db address (uploads bundle) s
  unfolding store_bundle
  store_bundle-uploads bundle address s = part-uploads one_time bundle.pre_key address _ _ s λ s1.
      part-uploads signed bundle.signed_pre_key address _ _ s1 λ s2.
        part-uploads pq_one_time bundle.pq_pre_key address _ _ s2
          (last-uploads last_resort bundle.pq_last_resort_pre_key address)

  -- If every signed key in an upload verifies under the identity key of its kind, all keys of the upload are
  -- handed to the database under the address of the device, in the order of `uploads`, up to the first call that
  -- fails, of which the answer is an error; otherwise nothing is stored and the answer is 422, or a panic, which
  -- only comes if libsignal gives an error instead of a verdict on one of the keys.
  pub handle_put_keys-validate :
      (d : AuthenticatedDevice) (bundle : SetKeyRequest) (kind : ServiceIdKind) (s : S)
      → Answers
          (validate_pre_key_signatures verify (identity_key_of d.account kind) (signed_keys bundle))
          (any_undecided verify (identity_key_of d.account kind) (signed_keys bundle))
          (store_uploads db (device_protocol_address ids d kind) (uploads bundle) s)
          (handle_put_keys ids verify db d bundle kind s)
          s
  unfolding handle_put_keys
  handle_put_keys-validate d bundle kind s =
      subst
        (λ rest.
          Answers
            (validate_pre_key_signatures verify (identity_key_of d.account kind)
              (signed_keys bundle))
            (any_undecided verify (identity_key_of d.account kind) (signed_keys bundle)) rest
            (handle_put_keys ids verify db d bundle kind s) s)
        (store_bundle-uploads bundle (device_protocol_address ids d kind) s)
        (handle_put_keys-checks d bundle kind s)
