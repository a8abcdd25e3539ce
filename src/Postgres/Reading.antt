-- ===== src/Postgres/Reading.antt =====
-- server/src/storage/postgres.rs: what a query gives, and which rows are chosen.
use mathlib.Core.List.{Permᴰ}
use denim.Prelude.{
  ℕ, ◌≡◌, refl, sym, Bool, true, false, ◌&&◌, ◌==◌, String, List, [], ◌∷◌, map, Outcome, ok, err,
  panic, out_of_fuel, Run, if◌then◌else◌, arith, Bool-cases, inl, inr,
}
use denim.Prelude as errors
use denim.Prelude.Effects.{Gives, go_on, Gives-map}
use denim.Text.{Text, text_eqb}
use denim.Postgres.{SignedKeyRow, Tables, Engine, given, reading, where_rows, any_row}
use denim.Postgres.Accounts.{violation}
use denim.Postgres.Reliable.{after_call}

-- PostgreSQL gives a new row an `id` that no row has, and a query all of its rows.
pub record IsPostgres {E : Type 0} (engine : Engine E) : Type 1 where
  pub fresh : (ids : List ℕ) → any_row (λ i. i == engine.fresh_id ids) ids ≡ false
  pub arranges : {A : Type 0} (rows : List A) → Permᴰ (engine.arrange rows) rows

pub no_row : {A : Type 0} {l m : List A} → Permᴰ l m → m ≡ [] → l ≡ []
no_row Permᴰ.nil h = refl
no_row (Permᴰ.cons e p) h = cc
no_row (Permᴰ.swap e f) h = cc
no_row (Permᴰ.trans p q) h = no_row p (no_row q h)

pub one_row : {A : Type 0} {l m : List A} (a : A) → Permᴰ l m → m ≡ a ∷ [] → l ≡ a ∷ []
one_row a Permᴰ.nil h = cc
one_row a (Permᴰ.cons e p) h = let rest = no_row p cc in cc
one_row a (Permᴰ.swap e f) h = cc
one_row a (Permᴰ.trans p q) h = one_row a p (one_row a q h)

-- A query gives what its rows are, and changes nothing.
pub reading-Gives :
    {E A : Type 0} (engine : Engine E) (f : Tables → Run A) (t : Tables) (s : E)
    → Gives (reading engine f (t, s)) λ a st. (f t ≡ ok a) × (st.0 ≡ t)
reading-Gives {E} {A} engine f t s =
    after_call (engine.query s) t (λ _ st. given st (errors.◌>>=◌ (f st.0) λ a. ok (a, st.0)))
      (λ a st. (f t ≡ ok a) × (st.0 ≡ t)) λ s1. ends s1 (f t) refl
  where
    ends :
        (s1 : E) (o : Run A)
        → f t ≡ o
        → Gives (given (t, s1) (errors.◌>>=◌ o λ a. ok (a, t))) λ a st. (f t ≡ ok a) × (st.0 ≡ t)
    ends s1 (ok a) h = (h, refl)
    ends s1 (err e) h = tt
    ends s1 panic h = tt
    ends s1 out_of_fuel h = tt

pub text_eqb_refl : (a : Text) → text_eqb a a ≡ true
text_eqb_refl [] = refl
text_eqb_refl (x ∷ a) = ground (arith, text_eqb_refl a)

-- Choosing twice leaves nothing if no row is chosen by both.
pub where_both :
    {A : Type 0} (p q : A → Bool) (rows : List A)
    → any_row (λ a. p a && q a) rows ≡ false
    → where_rows q (where_rows p rows) ≡ []
where_both p q [] h = refl
where_both p q (a ∷ rows) h =
    let first : p a && q a ≡ false = ground (arith, h) in
    let rest = where_both p q rows (ground (arith, h)) in
    elim (Bool-cases (p a)) [
      | inl chosen ↦
          let left : q a ≡ false = ground (arith, first, chosen) in rw (chosen, left) rest
      | inr left ↦ rw left rest
    ]

-- A query whose value is known.
pub reading_value :
    {E A : Type 0} (engine : Engine E) (f : Tables → Run A) (a : A) (t : Tables) (s : E)
    → f t ≡ ok a
    → Gives (reading engine f (t, s)) λ b st. (b ≡ a) × (st.0 ≡ t)
reading_value {E} {A} engine f a t s h =
    Gives-map {E = String} {A = A} (reading engine f (t, s)) _ _ (reading-Gives engine f t s)
      λ b st (value, kept). (cc, kept)

pub any_row-same :
    {A : Type 0} (p q : A → Bool) (rows : List A)
    → ((a : A) → p a ≡ q a)
    → any_row p rows ≡ any_row q rows
any_row-same p q [] h = refl
any_row-same p q (a ∷ rows) h = rw (h a, any_row-same p q rows h) refl

-- What is left if a constraint is not violated, and that it is not.
pub unless_taken :
    (b : Bool) (t t' : Tables) → (if b then violation else ok t) ≡ ok t' → (t' ≡ t) × (b ≡ false)
unless_taken true t t' h = (cc, cc)
unless_taken false t t' h = (cc, refl)

pub bind_same :
    {A B : Type 0} (o : Run A) (k l : A → Run B)
    → ((a : A) → k a ≡ l a)
    → errors.◌>>=◌ o k ≡ errors.◌>>=◌ o l
bind_same (ok a) k l h = h a
bind_same (err e) k l h = refl
bind_same panic k l h = refl
bind_same out_of_fuel k l h = refl

-- A query whose rows are the same in two states of the tables.
pub reading_same :
    {E A : Type 0} (engine : Engine E) (f : Tables → Run A) (t t' : Tables) (s : E)
    → f t ≡ f t'
    → (reading engine f (t, s)).0 ≡ (reading engine f (t', s)).0
reading_same {E} {A} engine f t t' s h = called_same (engine.query s)
  where
    given_same :
        (o o' : Run A) (s1 : E)
        → o ≡ o'
        → (given (t, s1) (errors.◌>>=◌ o λ a. ok (a, t))).0
          ≡ (given (t', s1) (errors.◌>>=◌ o' λ a. ok (a, t'))).0
    given_same (ok a) o' s1 e = rw (sym e) refl
    given_same (err x) o' s1 e = rw (sym e) refl
    given_same panic o' s1 e = rw (sym e) refl
    given_same out_of_fuel o' s1 e = rw (sym e) refl

    called_same :
        (r : Outcome String (Unit {0}) × E)
        → (go_on (r.0, (t, r.1)) (λ _ st. given st (errors.◌>>=◌ (f st.0) λ a. ok (a, st.0)))).0
          ≡ (go_on (r.0, (t', r.1)) (λ _ st. given st (errors.◌>>=◌ (f st.0) λ a. ok (a, st.0)))).0
    called_same (ok tt, s1) = given_same (f t) (f t') s1 h
    called_same (err e, s1) = refl
    called_same (panic, s1) = refl
    called_same (out_of_fuel, s1) = refl

pub any_row-map :
    (n : ℕ) (rows : List SignedKeyRow)
    → any_row (λ i. i == n) (map (λ r. r.id) rows) ≡ any_row (λ r. r.id == n) rows
any_row-map n [] = refl
any_row-map n (r ∷ rows) = rw (any_row-map n rows) refl
