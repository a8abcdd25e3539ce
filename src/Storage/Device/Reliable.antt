-- ===== src/Storage/Device/Reliable.antt =====
-- A database whose calls succeed, and records that survive serializing.
use denim.Prelude.{
  ℕ, ◌≡◌, refl, sym, Option, none, some, List, Outcome, ok, err, Run, Bool-cases, inl, inr, String,
  if◌then◌else◌,
}
use denim.Prelude.Equality.{Eq}
use denim.Prelude.Dict.{Dict, get, insert, remove, get-insert, get-remove}
use denim.Storage.Device.{decoded}
use denim.Text.{Text}
use denim.Storage.{
  SignalProtocolError, invalid_argument, Codec, Libsignal, Tables, Engine, reading, writing,
}

pub record IsReliable {E : Type 0} (engine : Engine E) : Type 0 where
  pub prepares : (s : E) → (s' : E) × (engine.prepare s ≡ (ok tt, s'))
  pub executes : (s : E) → (s' : E) × (engine.execute s ≡ (ok tt, s'))

module _ {E : Type 0} (engine : Engine E) (law : IsReliable engine) where
  pub reading-run :
      {A : Type 0} (f : Tables → Run A) (a : A) (t : Tables) (s : E)
      → f t ≡ ok a
      → (s' : E) × (reading engine f (t, s) ≡ (ok a, (t, s')))
  reading-run f a t s h =
      let (s1, prepared) = law.prepares s in
      let (s2, executed) = law.executes s1 in (s2, rw (prepared, executed, h) refl)

  pub reading-fails :
      {A : Type 0} (f : Tables → Run A) (e : String) (t : Tables) (s : E)
      → f t ≡ err e
      → (reading engine f (t, s)).0 ≡ err (invalid_argument e)
  reading-fails f e t s h =
      let (s1, prepared) = law.prepares s in
      let (s2, executed) = law.executes s1 in rw (prepared, executed, h) refl

  pub writing-run :
      (f : Tables → Tables) (t : Tables) (s : E)
      → (s' : E) × (writing engine f (t, s) ≡ (ok tt, (f t, s')))
  writing-run f t s =
      let (s1, prepared) = law.prepares s in
      let (s2, executed) = law.executes s1 in (s2, rw (prepared, executed) refl)

pub record IsFaithful {A : Type 0} (codec : Codec A) : Type 0 where
  pub roundtrip :
      (a : A) → (bytes : List ℕ) × (codec.serialize a ≡ ok bytes) × (codec.deserialize bytes ≡ ok a)

pub record IsLibsignal {I P R N : Type 0} (signal : Libsignal I P R N) : Type 0 where
  pub identities : (i : I) → signal.decode_identity (signal.serialize_identity i) ≡ ok i
  pub pre_keys : IsFaithful signal.pre_key
  pub signed_pre_keys : IsFaithful signal.signed_pre_key
  pub kyber_pre_keys : IsFaithful signal.kyber_pre_key
  pub sessions : IsFaithful signal.session

-- The text in a table, if there is one, is read as the value, if there is one.
abbrev pub Reads :
    {A : Type 0} → (Text → Outcome SignalProtocolError A) → Option Text → Option A → Type 0
Reads decode none none = Unit
Reads decode (some text) (some a) = decode text ≡ ok a
Reads decode _ _ = ⊥

module _ {K A : Type 0} ⦃e : Eq K⦄ (decode : Text → Outcome SignalProtocolError A) where
  pub Reads-insert :
      (d : Dict K Text) (f : K → Option A) (k : K) (text : Text) (a : A)
      → decode text ≡ ok a
      → ((j : K) → Reads decode (get d j) (f j))
      → (j : K) → Reads decode (get (insert d k text) j) (if e.eqb k j then some a else f j)
  Reads-insert d f k text a h shown j = elim (Bool-cases (e.eqb k j)) [
    | inl same ↦ rw (get-insert d k text j, same) h
    | inr other ↦ rw (get-insert d k text j, other) (shown j)
  ]

  pub Reads-remove :
      (d : Dict K Text) (f : K → Option A) (k : K)
      → ((j : K) → Reads decode (get d j) (f j))
      → (j : K) → Reads decode (get (remove d k) j) (if e.eqb k j then none else f j)
  Reads-remove d f k shown j = elim (Bool-cases (e.eqb k j)) [
    | inl same ↦ rw (get-remove d k j, same) tt
    | inr other ↦ rw (get-remove d k j, other) (shown j)
  ]

  -- A value that is put where it stands already changes nothing.
  pub Reads-same :
      (d : Dict K Text) (f : K → Option A) (k : K) (a : A)
      → f k ≡ some a
      → ((j : K) → Reads decode (get d j) (f j))
      → (j : K) → Reads decode (get d j) (if e.eqb k j then some a else f j)
  Reads-same d f k a h shown j = elim (Bool-cases (e.eqb k j)) [
    | inl same ↦ rw (same, sym h, (e.eqb_iff k j).0 same) (shown j)
    | inr other ↦ rw other (shown j)
  ]

pub Reads-decoded :
    {A : Type 0} (decode : Text → Outcome SignalProtocolError A) (row : Option Text) (a : Option A)
    → Reads decode row a
    → decoded decode row ≡ ok a
Reads-decoded decode none none h = refl
Reads-decoded decode (some text) (some a) h = rw h refl
Reads-decoded decode none (some a) h = absurd h
Reads-decoded decode (some text) none h = absurd h

pub Reads-none :
    {A : Type 0} (decode : Text → Outcome SignalProtocolError A) (row : Option Text) (a : Option A)
    → Reads decode row a
    → row ≡ none
    → a ≡ none
Reads-none decode none none h e = refl
Reads-none decode none (some a) h e = absurd h
Reads-none decode (some text) none h e = absurd h
Reads-none decode (some text) (some a) h e = cc

pub Reads-some :
    {A : Type 0} (decode : Text → Outcome SignalProtocolError A) (row : Option Text) (a : Option A)
    (text : Text)
    → Reads decode row a
    → row ≡ some text
    → (b : A) × (a ≡ some b) × (decode text ≡ ok b)
Reads-some decode none none text h e = cc
Reads-some decode none (some a) text h e = absurd h
Reads-some decode (some t) none text h e = absurd h
Reads-some decode (some t) (some a) text h e = let same : t ≡ text = cc in (a, refl, rw⁻¹ same h)
