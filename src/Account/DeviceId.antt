-- ===== src/Account/DeviceId.antt =====
-- The identifiers of an account's devices.
use denim.Prelude.{
  ℕ, ◌+◌, ◌≤◌, ◌<◌, ◌≡◌, ◌∙◌, sym, subst, refl, inl, inr, false, some, List, [], ◌∷◌, ◌++◌, arith,
  ok, panic, Run, Returns, ltb, leb, lt→ltb, ◌==◌, if◌then◌else◌, Option-cases, u32_max,
}
use denim.Account.{
  Device, Account, max_device_id, get_next_device_id, add_device, contains_device, device_eqb,
  find_device,
}

-- Every identifier is below the bound.
abbrev pub IdsBelow : ℕ → List Device → Type 0
IdsBelow n [] = Unit {0}
IdsBelow n (d ∷ ds) = (d.device_id < n) × IdsBelow n ds

IdsBelow-mono : (m n : ℕ) (ds : List Device) → m ≤ n → IdsBelow m ds → IdsBelow n ds
IdsBelow-mono m n [] h b = tt
IdsBelow-mono m n (d ∷ ds) h b = (omega arith, IdsBelow-mono m n ds h b.1)

max_device_id-some : (d : Device) (ds : List Device) → (m : ℕ) × (max_device_id (d ∷ ds) ≡ some m)
unfolding max_device_id
max_device_id-some d ds = elim (Option-cases (max_device_id ds)) [
  | inl e ↦ (d.device_id, rw e)
  | inr (k, e) ↦ (if leb k d.device_id then d.device_id else k, rw e)
]

max_device_id-IdsBelow :
    (ds : List Device) (m : ℕ) → max_device_id ds ≡ some m → IdsBelow (m + 1) ds
unfolding max_device_id
max_device_id-IdsBelow [] m e = tt
max_device_id-IdsBelow (d ∷ []) m e = ground arith
max_device_id-IdsBelow (d ∷ f ∷ ds) m e =
    let (k, below) = max_device_id-some f ds in
    (
      ground (arith, below),
      IdsBelow-mono (k + 1) (m + 1) (f ∷ ds) (ground (arith, below))
          (max_device_id-IdsBelow (f ∷ ds) k below),
    )

max_device_id-least :
    (n : ℕ) (ds : List Device) (m : ℕ) → IdsBelow n ds → max_device_id ds ≡ some m → m < n
unfolding max_device_id
max_device_id-least n [] m b e = cc
max_device_id-least n (d ∷ []) m b e = ground arith
max_device_id-least n (d ∷ f ∷ ds) m b e =
    let (k, below) = max_device_id-some f ds in
    ground (arith, below, max_device_id-least n (f ∷ ds) k b.1)

IdsBelow-not_contained :
    (ds : List Device) (d : Device) → IdsBelow d.device_id ds → contains_device ds d ≡ false
unfolding contains_device device_eqb
IdsBelow-not_contained [] d b = refl
IdsBelow-not_contained (e ∷ ds) d b = ground (arith, IdsBelow-not_contained ds d b.1)

find_device-append :
    (ds : List Device) (d : Device) (id : ℕ)
    → IdsBelow d.device_id ds
    → find_device id (ds ++ d ∷ []) ≡ (if d.device_id == id then some d else find_device id ds)
unfolding find_device
find_device-append [] d id b = refl
find_device-append (e ∷ ds) d id b = ground (arith, find_device-append ds d id b.1)

-- An account with at least one device, all below the greatest `u32`, always gets a next device
-- identifier: it is above that of every device.
pub get_next_device_id_lem :
    (a : Account) (first : Device) (others : List Device)
    → a.devices ≡ first ∷ others
    → IdsBelow u32_max a.devices
    → Returns (get_next_device_id a) λ id. IdsBelow id a.devices × (id ≤ u32_max)
unfolding get_next_device_id
get_next_device_id_lem a first others e b =
    let (m, greatest) = max_device_id-some first others in
    let found : max_device_id a.devices ≡ some m = rw e greatest in
    rw found (
      rw (lt→ltb m u32_max (max_device_id-least u32_max a.devices m b found)) (
        max_device_id-IdsBelow a.devices m found,
        omega (arith, max_device_id-least u32_max a.devices m b found),
      ))

-- A device with the next identifier is added without an error; afterwards it is found under its
-- identifier, and every other identifier leads where it led before.
pub add_device-next_device_id :
    (a : Account) (d : Device) (id : ℕ)
    → get_next_device_id a ≡ ok d.device_id
    → Returns (add_device a d) λ a'.
      find_device id a'.devices ≡ (if d.device_id == id then some d else find_device id a.devices)
unfolding add_device get_next_device_id
add_device-next_device_id a d id e = elim (Option-cases (max_device_id a.devices)) [
  | inl empty ↦ absurd (no_panic (sym e ∙ rw empty))
  | inr (m, found) ↦
      let below : IdsBelow d.device_id a.devices =
        subst (λ n. IdsBelow n a.devices) (next m (sym e ∙ rw found))
          (max_device_id-IdsBelow a.devices m found) in
      rw (IdsBelow-not_contained a.devices d below) (find_device-append a.devices d id below)
]
  where
    no_panic : ◌≡◌ {A = Run ℕ} (ok d.device_id) panic → ⊥
    no_panic p = cc

    next :
        (m : ℕ)
        → ◌≡◌ {A = Run ℕ} (ok d.device_id) (if ltb m u32_max then ok (m + 1) else panic)
        → m + 1 ≡ d.device_id
    next m p = ground arith
