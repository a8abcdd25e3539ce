-- ===== src/Chunk/Sort.antt =====
-- The order of chunks (`impl Ord for DenimChunk`, common/src/web_api/mod.rs) and the stable sort by
-- it. Chunks of one payload have distinct flags, and then the sorted list does not depend on the
-- order of arrival.
use mathlib.Core.List.{Perm, Permᴰ, Mem, Nodup, Nodup-cons, Nodup-nil, mem-cons, not-mem-nil}
use mathlib.Core.List.Perm
use mathlib.Core.List.Permᴰ
use mathlib.Core.List
use mathlib.Core.Logic.Or
use mathlib.Core.Logic.{∥∥₁_elim}
use mathlib.Core.Path.{ap₂}
use mathlib.Core.HLevel.{hedberg}
use native.Mathlib.Bridge.{le_prop}
use Prim.Native.Nat.{Ordering}
use denim.Prelude.{
  ◌≡◌, ◌≢◌, refl, sym, ap, ◌∙◌, List, map, [], ◌∷◌, arith, ℤ, ltb_ℤ, ◌<ℤ◌, if◌then◌else◌,
}
use denim.Chunk.Types.{DenimChunk, DenimChunk-discrete}

-- `other.flags.cmp(&self.flags)`: the greatest flags come first.
unfoldable pub cmp : DenimChunk → DenimChunk → Ordering
cmp self other =
    if ltb_ℤ other.flags self.flags
    then Ordering.lt
    else if ltb_ℤ self.flags other.flags
    then Ordering.gt
    else Ordering.eq

-- `Vec::sort` keeps the order of equal elements, as insertion in front of the first element that is
-- not smaller does.
unfoldable pub insert : DenimChunk → List DenimChunk → List DenimChunk
insert c [] = c ∷ []
insert c (d ∷ ds) = elim (cmp c d) [ Ordering.gt ↦ d ∷ insert c ds | _ ↦ c ∷ d ∷ ds ]

unfoldable pub sort : List DenimChunk → List DenimChunk
unfolding insert
sort [] = []
sort (c ∷ cs) = insert c (sort cs)

-- Flags fall along the list.
abbrev pub Descends : ℤ → List DenimChunk → Type 0
Descends bound [] = Unit {0}
Descends bound (c ∷ cs) = (c.flags <ℤ bound) × Descends c.flags cs

insert-front : (c : DenimChunk) (cs : List DenimChunk) → Descends c.flags cs → insert c cs ≡ c ∷ cs
unfolding insert cmp
insert-front c [] h = refl
insert-front c (d ∷ ds) h = ground arith

-- A list whose flags fall is sorted already.
pub sort-Descends : (bound : ℤ) (cs : List DenimChunk) → Descends bound cs → sort cs ≡ cs
unfolding sort
sort-Descends bound [] h = refl
sort-Descends bound (c ∷ cs) h =
    ap (insert c) (sort-Descends c.flags cs h.1) ∙ insert-front c cs h.1

-- Two chunks with different flags can be inserted in either order.
insert_comm :
    (a b : DenimChunk) (cs : List DenimChunk)
    → a.flags ≢ b.flags
    → insert a (insert b cs) ≡ insert b (insert a cs)
unfolding insert cmp
insert_comm a b [] h = ground arith
insert_comm a b (c ∷ cs) h = ground (arith, insert_comm a b cs)

abbrev pub flags_of : List DenimChunk → List ℤ
flags_of = map (λ c. c.flags)

swap_at_front :
    (a b a' b' : DenimChunk) (l : List DenimChunk)
    → a ≡ b'
    → b ≡ a'
    → a.flags ≢ b.flags
    → insert a (insert b l) ≡ insert a' (insert b' l)
swap_at_front a b a' b' l e f ne = rw (← e, ← f) (insert_comm a b l ne)

sort-permᴰ : {cs ds : List DenimChunk} → Permᴰ cs ds → Nodup (flags_of cs) → sort cs ≡ sort ds
unfolding sort
sort-permᴰ Permᴰ.nil n = refl
sort-permᴰ (Permᴰ.cons e p) n = ap₂ insert e (sort-permᴰ p (Nodup-cons.0 n).1)
sort-permᴰ (Permᴰ.swap {a = a} {b = b} {a' = a'} {b' = b'} {l = l} e f) n =
    swap_at_front a b a' b' (sort l) e f λ same. (Nodup-cons.0 n).0 (mem-cons.1 (Or.inl same))
sort-permᴰ (Permᴰ.trans p q) n =
    sort-permᴰ p n ∙ sort-permᴰ q (Perm.nodup (Perm.map (λ c. c.flags) ∣ p ∣₁) n)

Descends-below :
    (bound : ℤ) (cs : List DenimChunk) (f : ℤ)
    → Descends bound cs
    → Mem f (flags_of cs)
    → f <ℤ bound
Descends-below bound [] f d m = absurd (not-mem-nil m)
Descends-below bound (c ∷ cs) f d m =
    Or.elim le_prop (mem-cons.0 m) (λ e. rw e d.0)
      λ later. below_trans (Descends-below c.flags cs f d.1 later) d.0
  where
    below_trans : f <ℤ c.flags → c.flags <ℤ bound → f <ℤ bound
    below_trans h k = omega arith

Descends-Nodup : (bound : ℤ) (cs : List DenimChunk) → Descends bound cs → Nodup (flags_of cs)
Descends-Nodup bound [] d = Nodup-nil
Descends-Nodup bound (c ∷ cs) d =
    Nodup-cons.1
      (λ m. not_below (Descends-below c.flags cs c.flags d.1 m), Descends-Nodup c.flags cs d.1)
  where
    not_below : c.flags <ℤ c.flags → ⊥
    not_below h = omega arith

DenimChunk-set : IsSet DenimChunk
DenimChunk-set = hedberg DenimChunk-discrete

-- Any arrival order of chunks whose flags fall is sorted back into that order.
pub sort-perm :
    (bound : ℤ) (cs ds : List DenimChunk) → Perm cs ds → Descends bound ds → sort cs ≡ ds
sort-perm bound cs ds p d =
    ∥∥₁_elim p (List.is_set DenimChunk-set _ _)
      λ q. sym (sort-permᴰ (Permᴰ.symm q) (Descends-Nodup bound ds d)) ∙ sort-Descends bound ds d
