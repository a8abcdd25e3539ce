-- ===== src/Prelude/Effects.antt =====
-- Calls that change a state and may fail: the state that they leave stands beside the outcome,
-- whatever the outcome is.
use mathlib.Core.Path.{◌≡◌, refl}
use denim.Prelude.Errors.{Outcome, ok, err, panic, out_of_fuel, map_err}

abbrev pub Action : Type 0 → Type 0 → Type 0 → Type 0
Action S E A = S → Outcome E A × S

module _ {S E : Type 0} where
  abbrev pub return : {A : Type 0} → A → Action S E A
  return a s = (ok a, s)

  abbrev pub lift : {A : Type 0} → Outcome E A → Action S E A
  lift o s = (o, s)

  abbrev pub on_err : {F A : Type 0} → (F → E) → Action S F A → Action S E A
  on_err f m s = (map_err f (m s).0, (m s).1)

  abbrev pub go_on : {A B : Type 0} → Outcome E A × S → (A → Action S E B) → Outcome E B × S
  go_on (ok a, s) f = f a s
  go_on (err e, s) f = (err e, s)
  go_on (panic, s) f = (panic, s)
  go_on (out_of_fuel, s) f = (out_of_fuel, s)

  infixl 5 ◌>>=◌ ◌>>◌
  abbrev pub ◌>>=◌ : {A B : Type 0} → Action S E A → (A → Action S E B) → Action S E B
  (m >>= f) s = go_on (m s) f

  abbrev pub ◌>>◌ : {B : Type 0} → Action S E (Unit {0}) → Action S E B → Action S E B
  (m >> k) s = go_on (m s) λ _. k

  -- What holds of the value and the state if the call ends in a value.
  abbrev pub Gives : {A : Type 0} → Outcome E A × S → (A → S → Type 0) → Type 0
  Gives (ok a, s) P = P a s
  Gives _ P = Unit

  pub go_on-Gives :
      {A B : Type 0} (r : Outcome E A × S) (f : A → Action S E B) (P : A → S → Type 0)
      (Q : B → S → Type 0)
      → Gives r P
      → ((a : A) (s : S) → P a s → Gives (f a s) Q)
      → Gives (go_on r f) Q
  go_on-Gives (ok a, s) f P Q h k = k a s h
  go_on-Gives (err e, s) f P Q h k = tt
  go_on-Gives (panic, s) f P Q h k = tt
  go_on-Gives (out_of_fuel, s) f P Q h k = tt

  pub Gives-map :
      {A : Type 0} (r : Outcome E A × S) (P Q : A → S → Type 0)
      → Gives r P
      → ((a : A) (s : S) → P a s → Q a s)
      → Gives r Q
  Gives-map (ok a, s) P Q h k = k a s h
  Gives-map (err e, s) P Q h k = tt
  Gives-map (panic, s) P Q h k = tt
  Gives-map (out_of_fuel, s) P Q h k = tt

  -- What holds of the error and the state if the call ends in an error.
  abbrev pub Fails : {A : Type 0} → Outcome E A × S → (E → S → Type 0) → Type 0
  Fails (err e, s) P = P e s
  Fails _ P = Unit

-- The error of a check, or of the rest.
pub check-Fails :
    {S E F A B : Type 0} (f : F → E) (o : Outcome F A) (k : A → Action S E B) (s : S)
    (Q : E → S → Type 0)
    → ((e : F) → Q (f e) s)
    → ((a : A) → Fails (k a s) Q)
    → Fails (go_on (map_err f o, s) k) Q
check-Fails f (ok a) k s Q h q = q a
check-Fails f (err e) k s Q h q = h e
check-Fails f panic k s Q h q = tt
check-Fails f out_of_fuel k s Q h q = tt

pub call-Fails :
    {S E F A B : Type 0} (f : F → E) (r : Outcome F A × S) (k : A → Action S E B)
    (Q : E → S → Type 0)
    → ((e : F) (s : S) → Q (f e) s)
    → ((a : A) (s : S) → Fails (k a s) Q)
    → Fails (go_on (map_err f r.0, r.1) k) Q
call-Fails f (ok a, s) k Q h q = q a s
call-Fails f (err e, s) k Q h q = h e s
call-Fails f (panic, s) k Q h q = tt
call-Fails f (out_of_fuel, s) k Q h q = tt

pub go_on-Fails :
    {S E A B : Type 0} (r : Outcome E A × S) (k : A → Action S E B) (Q : E → S → Type 0)
    → Fails r Q
    → ((a : A) (s : S) → Fails (k a s) Q)
    → Fails (go_on r k) Q
go_on-Fails (ok a, s) k Q h q = q a s
go_on-Fails (err e, s) k Q h q = h
go_on-Fails (panic, s) k Q h q = tt
go_on-Fails (out_of_fuel, s) k Q h q = tt

pub Fails-map :
    {S E A : Type 0} (r : Outcome E A × S) (P Q : E → S → Type 0)
    → Fails r P
    → ((e : E) (s : S) → P e s → Q e s)
    → Fails r Q
Fails-map (ok a, s) P Q h k = tt
Fails-map (err e, s) P Q h k = k e s h
Fails-map (panic, s) P Q h k = tt
Fails-map (out_of_fuel, s) P Q h k = tt

-- A call that ends in a value, before a rest that does.
pub go_on-ok :
    {S E A B : Type 0} (r : Outcome E A × S) (k : A → Action S E B) (b : B)
    → (a : A) × (r.0 ≡ ok a)
    → ((a : A) (s : S) → (k a s).0 ≡ ok b)
    → (go_on r k).0 ≡ ok b
go_on-ok (ok a, s) k b h q = q a s
go_on-ok (err e, s) k b h q = cc
go_on-ok (panic, s) k b h q = cc
go_on-ok (out_of_fuel, s) k b h q = cc

pub call-ok :
    {S E F A B : Type 0} (f : F → E) (r : Outcome F A × S) (k : A → Action S E B) (b : B)
    → (a : A) × (r.0 ≡ ok a)
    → ((a : A) (s : S) → (k a s).0 ≡ ok b)
    → (go_on (map_err f r.0, r.1) k).0 ≡ ok b
call-ok f (ok a, s) k b h q = q a s
call-ok f (err e, s) k b h q = cc
call-ok f (panic, s) k b h q = cc
call-ok f (out_of_fuel, s) k b h q = cc

-- A check that changes nothing, then the rest.
pub check-Gives :
    {S E F A B : Type 0} (f : F → E) (o : Outcome F A) (k : A → Action S E B) (s : S)
    (Q : B → S → Type 0)
    → ((a : A) → o ≡ ok a → Gives (k a s) Q)
    → Gives (go_on (map_err f o, s) k) Q
check-Gives f (ok a) k s Q h = h a refl
check-Gives f (err e) k s Q h = tt
check-Gives f panic k s Q h = tt
check-Gives f out_of_fuel k s Q h = tt

-- A call whose error is replaced, then the rest.
pub call-Gives :
    {S E F A B : Type 0} (f : F → E) (r : Outcome F A × S) (k : A → Action S E B)
    (P : A → S → Type 0) (Q : B → S → Type 0)
    → Gives r P
    → ((a : A) (s : S) → P a s → Gives (k a s) Q)
    → Gives (go_on (map_err f r.0, r.1) k) Q
call-Gives f (ok a, s) k P Q h q = q a s h
call-Gives f (err e, s) k P Q h q = tt
call-Gives f (panic, s) k P Q h q = tt
call-Gives f (out_of_fuel, s) k P Q h q = tt

-- The call ends in a value, and the value and the state are as stated.
abbrev pub Ends : {S E A : Type 0} → Outcome E A × S → (A → S → Type 0) → Type 0
Ends (ok a, s) P = P a s
Ends _ P = ⊥

pub go_on-Ends :
    {S E A B : Type 0} (r : Outcome E A × S) (k : A → Action S E B) (P : A → S → Type 0)
    (Q : B → S → Type 0)
    → Ends r P
    → ((a : A) (s : S) → P a s → Ends (k a s) Q)
    → Ends (go_on r k) Q
go_on-Ends (ok a, s) k P Q h q = q a s h
go_on-Ends (err e, s) k P Q h q = absurd h
go_on-Ends (panic, s) k P Q h q = absurd h
go_on-Ends (out_of_fuel, s) k P Q h q = absurd h

pub Ends-map :
    {S E A : Type 0} (r : Outcome E A × S) (P Q : A → S → Type 0)
    → Ends r P
    → ((a : A) (s : S) → P a s → Q a s)
    → Ends r Q
Ends-map (ok a, s) P Q h q = q a s h
Ends-map (err e, s) P Q h q = absurd h
Ends-map (panic, s) P Q h q = absurd h
Ends-map (out_of_fuel, s) P Q h q = absurd h

-- A call of which nothing is asked, then the rest.
pub any_Gives :
    {S E A B : Type 0} (r : Outcome E A × S) (k : A → Action S E B) (Q : B → S → Type 0)
    → ((a : A) (s : S) → Gives (k a s) Q)
    → Gives (go_on r k) Q
any_Gives (ok a, s) k Q q = q a s
any_Gives (err e, s) k Q q = tt
any_Gives (panic, s) k Q q = tt
any_Gives (out_of_fuel, s) k Q q = tt

-- Either the call ends in a value, and `P` holds of it and of what is kept, or what is kept is as before.
abbrev pub AllOrNothing : {K S E A : Type 0} → K → Outcome E A × (K × S) → (A → K → Type 0) → Type 0
AllOrNothing k (ok a, st) P = P a st.0
AllOrNothing k (err e, st) P = st.0 ≡ k
AllOrNothing k (panic, st) P = st.0 ≡ k
AllOrNothing k (out_of_fuel, st) P = st.0 ≡ k

-- A call that ends in a value, and does everything or nothing.
pub AllOrNothing-Ends :
    {K S E A : Type 0} (k : K) (r : Outcome E A × (K × S)) (P : A → K → Type 0)
    → AllOrNothing k r P
    → Ends r (λ _ _. Unit)
    → Ends r λ a st. P a st.0
AllOrNothing-Ends k (ok a, st) P h e = h
AllOrNothing-Ends k (err x, st) P h e = absurd e
AllOrNothing-Ends k (panic, st) P h e = absurd e
AllOrNothing-Ends k (out_of_fuel, st) P h e = absurd e
