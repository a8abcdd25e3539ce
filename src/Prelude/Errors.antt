-- ===== src/Prelude/Errors.antt =====
-- What a Rust function ends in: a value, an error of its `Result`, or a panic (an `unwrap`, an
-- `expect`, an arithmetic overflow of a build with overflow checks). `out_of_fuel` is the model's
-- own: a loop that was given too few rounds.
use Prim.Native.Nat.{ℕ, ◌-◌, ◌≤◌}
use Prim.Native.String.{String}
use mathlib.Core.Path.{◌≡◌, refl}
use mathlib.Core.Option.{Option, none, some}
use native.Mathlib.Omega.{arith}
use denim.Prelude.Tests.{ltb, if◌then◌else◌}

pub data Outcome {ℓ κ} (E : Type κ) (A : Type ℓ) : Type (ℓ ⊔ κ) where
  ok : A → Outcome E A
  err : E → Outcome E A
  panic : Outcome E A
  out_of_fuel : Outcome E A

infixl 5 ◌>>=◌ ◌>>◌
abbrev pub ◌>>=◌ {ℓ κ μ} :
    {E : Type μ} {A : Type ℓ} {B : Type κ} → Outcome E A → (A → Outcome E B) → Outcome E B
ok a >>= f = f a
err e >>= f = err e
panic >>= f = panic
out_of_fuel >>= f = out_of_fuel

abbrev pub ◌>>◌ {κ μ} : {E : Type μ} {B : Type κ} → Outcome E (Unit {0}) → Outcome E B → Outcome E B
m >> k = m >>= λ _. k

-- `a - b` on an unsigned integer panics below zero.
abbrev pub checked_sub {μ} : {E : Type μ} → ℕ → ℕ → Outcome E ℕ
checked_sub a b = if ltb a b then panic else ok (a - b)

pub checked_sub_le {μ} :
    {E : Type μ} (a b : ℕ) → b ≤ a → ◌≡◌ {A = Outcome E ℕ} (checked_sub a b) (ok (a - b))
checked_sub_le a b h = ground arith

-- `o.ok_or(e)?`
abbrev pub or_err {ℓ μ} : {E : Type μ} {A : Type ℓ} → Option A → E → Outcome E A
or_err none e = err e
or_err (some a) e = ok a

-- `o.expect(…)`, `o.unwrap()`
abbrev pub or_panic {ℓ μ} : {E : Type μ} {A : Type ℓ} → Option A → Outcome E A
or_panic none = panic
or_panic (some a) = ok a

-- `r.map_err(f)`
abbrev pub map_err {ℓ μ ν} :
    {E : Type μ} {F : Type ν} {A : Type ℓ} → (E → F) → Outcome E A → Outcome F A
map_err f (ok a) = ok a
map_err f (err e) = err (f e)
map_err f panic = panic
map_err f out_of_fuel = out_of_fuel

-- Total correctness: the run ends in a value, and the value satisfies `P`.
abbrev pub Returns {ℓ μ} : {E : Type μ} {A : Type ℓ} → Outcome E A → (A → Type 0) → Type 0
Returns (ok a) P = P a
Returns (err e) P = ⊥
Returns panic P = ⊥
Returns out_of_fuel P = ⊥

-- A run that returns is a run that equals `ok` of a value with the property.
pub Returns-ok {ℓ μ} :
    {E : Type μ} {A : Type ℓ} (m : Outcome E A) (P : A → Type 0)
    → Returns m P
    → (a : A) × (m ≡ ok a) × P a
Returns-ok (ok a) P h = (a, refl, h)
Returns-ok (err e) P h = absurd h
Returns-ok panic P h = absurd h
Returns-ok out_of_fuel P h = absurd h

pub Returns-map {ℓ μ} :
    {E : Type μ} {A : Type ℓ} (m : Outcome E A) (P Q : A → Type 0)
    → Returns m P
    → ((a : A) → P a → Q a)
    → Returns m Q
Returns-map (ok a) P Q h k = k a h
Returns-map (err e) P Q h k = absurd h
Returns-map panic P Q h k = absurd h
Returns-map out_of_fuel P Q h k = absurd h

pub >>=-Returns {ℓ κ μ} :
    {E : Type μ} {A : Type ℓ} {B : Type κ} (m : Outcome E A) (f : A → Outcome E B) (P : A → Type 0)
    (Q : B → Type 0)
    → Returns m P
    → ((a : A) → P a → Returns (f a) Q)
    → Returns (m >>= f) Q
>>=-Returns (ok a) f P Q h k = k a h
>>=-Returns (err e) f P Q h k = absurd h
>>=-Returns panic f P Q h k = absurd h
>>=-Returns out_of_fuel f P Q h k = absurd h

-- A subtraction that does not go below zero.
pub checked_sub-Returns {κ μ} :
    {E : Type μ} {B : Type κ} (a b : ℕ) (f : ℕ → Outcome E B) (Q : B → Type 0)
    → b ≤ a
    → Returns (f (a - b)) Q
    → Returns (checked_sub a b >>= f) Q
checked_sub-Returns a b f Q h k = rw (checked_sub_le a b h) k

-- Most of the program's errors are texts (`String`, `anyhow::Error`).
abbrev pub Run {ℓ} : Type ℓ → Type ℓ
Run A = Outcome String A

-- Partial correctness: if the run ends in a value, the value satisfies `P`.
abbrev pub IfOk {ℓ μ} : {E : Type μ} {A : Type ℓ} → Outcome E A → (A → Type 0) → Type 0
IfOk (ok a) P = P a
IfOk _ P = Unit

pub >>=-IfOk {ℓ κ μ} :
    {E : Type μ} {A : Type ℓ} {B : Type κ} (m : Outcome E A) (f : A → Outcome E B) (P : A → Type 0)
    (Q : B → Type 0)
    → IfOk m P
    → ((a : A) → P a → IfOk (f a) Q)
    → IfOk (m >>= f) Q
>>=-IfOk (ok a) f P Q h k = k a h
>>=-IfOk (err e) f P Q h k = tt
>>=-IfOk panic f P Q h k = tt
>>=-IfOk out_of_fuel f P Q h k = tt

pub >>=-IfOk_any {ℓ κ μ} :
    {E : Type μ} {A : Type ℓ} {B : Type κ} (m : Outcome E A) (f : A → Outcome E B) (Q : B → Type 0)
    → ((a : A) → IfOk (f a) Q)
    → IfOk (m >>= f) Q
>>=-IfOk_any (ok a) f Q k = k a
>>=-IfOk_any (err e) f Q k = tt
>>=-IfOk_any panic f Q k = tt
>>=-IfOk_any out_of_fuel f Q k = tt

pub IfOk-at {ℓ μ} :
    {E : Type μ} {A : Type ℓ} (m : Outcome E A) (P : A → Type 0) {a : A} → IfOk m P → m ≡ ok a → P a
IfOk-at m P h e = rw e at h

-- The run ends in a value with the property or in an error, never in a panic or without fuel.
abbrev pub NoPanic {ℓ μ} : {E : Type μ} {A : Type ℓ} → Outcome E A → (A → Type 0) → Type 0
NoPanic (ok a) P = P a
NoPanic (err e) P = Unit
NoPanic panic P = ⊥
NoPanic out_of_fuel P = ⊥

pub >>=-NoPanic {ℓ κ μ} :
    {E : Type μ} {A : Type ℓ} {B : Type κ} (m : Outcome E A) (f : A → Outcome E B) (P : A → Type 0)
    (Q : B → Type 0)
    → NoPanic m P
    → ((a : A) → P a → NoPanic (f a) Q)
    → NoPanic (m >>= f) Q
>>=-NoPanic (ok a) f P Q h k = k a h
>>=-NoPanic (err e) f P Q h k = tt
>>=-NoPanic panic f P Q h k = absurd h
>>=-NoPanic out_of_fuel f P Q h k = absurd h

pub checked_sub-NoPanic {κ μ} :
    {E : Type μ} {B : Type κ} (a b : ℕ) (f : ℕ → Outcome E B) (Q : B → Type 0)
    → b ≤ a
    → NoPanic (f (a - b)) Q
    → NoPanic (checked_sub a b >>= f) Q
checked_sub-NoPanic a b f Q h k = rw (checked_sub_le a b h) k
