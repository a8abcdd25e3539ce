-- ===== src/Prelude/Dict.antt =====
-- `HashMap`: the order of entries is not modelled. Clients have the laws below.
use mathlib.Core.Path.{◌≡◌, refl, ap}
use mathlib.Core.Bool.{Bool, true, false}
use mathlib.Core.List.{List, [], ◌∷◌}
use mathlib.Core.Option.{Option, none, some}
use native.Mathlib.Omega.{arith}
use denim.Prelude.Tests.{if◌then◌else◌, Bool-cases}
use mathlib.Core.Logic.{inl, inr}
use denim.Prelude.Equality.{Eq}

-- `entries` is public, so that a map can be traversed.
pub record Dict {ℓ κ} (K : Type ℓ) (V : Type κ) : Type (ℓ ⊔ κ) where
  pub entries : List (K × V)

abbrev pub empty {ℓ κ} : {K : Type ℓ} {V : Type κ} → Dict K V
empty = record { entries = [] }

module _ {ℓ κ} {K : Type ℓ} {V : Type κ} ⦃e : Eq K⦄ where
  unfoldable pub assoc : K → List (K × V) → Option V
  assoc k [] = none
  assoc k ((j, v) ∷ l) = if e.eqb j k then some v else assoc k l

  unfoldable pub without : K → List (K × V) → List (K × V)
  without k [] = []
  without k ((j, v) ∷ l) = let rest = without k l in if e.eqb j k then rest else (j, v) ∷ rest

  unfoldable pub get : Dict K V → K → Option V
  unfolding assoc
  get d k = assoc k d.entries

  unfoldable pub contains_key : Dict K V → K → Bool
  unfolding get
  contains_key d k = elim (get d k) [ none ↦ false | some _ ↦ true ]

  unfoldable pub insert : Dict K V → K → V → Dict K V
  unfolding without
  insert d k v = record { entries = (k, v) ∷ without k d.entries }

  unfoldable pub remove : Dict K V → K → Dict K V
  unfolding without
  remove d k = record { entries = without k d.entries }

  assoc-without :
      (k j : K) (l : List (K × V)) → assoc j (without k l) ≡ (if e.eqb k j then none else assoc j l)
  unfolding assoc without
  assoc-without k j [] = ground arith
  assoc-without k j ((i, v) ∷ l) =
      ground (arith, assoc-without k j l, e.eqb_iff i k, e.eqb_iff i j, e.eqb_iff k j)

  pub get-insert :
      (d : Dict K V) (k : K) (v : V) (j : K)
      → get (insert d k v) j ≡ (if e.eqb k j then some v else get d j)
  unfolding get insert
  get-insert d k v j = ground (arith, assoc-without k j d.entries)

  pub get-remove :
      (d : Dict K V) (k j : K) → get (remove d k) j ≡ (if e.eqb k j then none else get d j)
  unfolding get remove
  get-remove d k j = assoc-without k j d.entries

  without_absent : (k : K) (l : List (K × V)) → assoc k l ≡ none → without k l ≡ l
  unfolding assoc without
  without_absent k [] h = refl
  without_absent k ((j, v) ∷ l) h = elim (Bool-cases (e.eqb j k)) [
    | inl same ↦ ground (arith, h, same)
    | inr other ↦
        let rest : assoc k l ≡ none = ground (arith, h, other) in
        rw other (ap (◌∷◌ (j, v)) (without_absent k l rest))
  ]

  -- A key that is new is put in front.
  pub insert_absent :
      (d : Dict K V) (k : K) (v : V) → get d k ≡ none → (insert d k v).entries ≡ (k, v) ∷ d.entries
  unfolding get insert
  insert_absent d k v h = ap (◌∷◌ (k, v)) (without_absent k d.entries h)
