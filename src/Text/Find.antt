-- ===== src/Text/Find.antt =====
-- Finding and splitting at a separator.
use denim.Prelude.{
  ℕ, ◌≡◌, ◌≢◌, refl, ap, none, some, [], ◌∷◌, ◌++◌, arith, length, length-append, take, drop, ok,
}
use denim.Text.{split, Text, find, split_at}

-- The byte does not occur.
abbrev pub Lacks : ℕ → Text → Type 0
Lacks c [] = Unit {0}
Lacks c (b ∷ bs) = (b ≢ c) × Lacks c bs

pub find-Lacks : (c : ℕ) (s : Text) → Lacks c s → find c s ≡ none
unfolding find
find-Lacks c [] h = refl
find-Lacks c (b ∷ bs) h = ground (arith, find-Lacks c bs h.1)

-- The first occurrence stands behind a part that lacks the byte.
pub find-append : (c : ℕ) (s rest : Text) → Lacks c s → find c (s ++ c ∷ rest) ≡ some (length s)
unfolding find
find-append c [] rest h = ground arith
find-append c (b ∷ bs) rest h = ground (arith, find-append c bs rest h.1)

pub take-length : (s rest : Text) → take (length s) (s ++ rest) ≡ s
take-length [] rest = refl
take-length (b ∷ bs) rest = ap (◌∷◌ b) (take-length bs rest)

pub drop-length : (s rest : Text) → drop (length s) (s ++ rest) ≡ rest
drop-length [] rest = refl
drop-length (b ∷ bs) rest = drop-length bs rest

pub split_at-length : (s rest : Text) → split_at (length s) (s ++ rest) ≡ ok (s, rest)
unfolding split_at
split_at-length s rest =
    ground (arith, length-append s rest, take-length s rest, drop-length s rest)

pub split-Lacks : (c : ℕ) (s : Text) → Lacks c s → split c s ≡ s ∷ []
unfolding split
split-Lacks c [] h = refl
split-Lacks c (b ∷ bs) h = ground (arith, split-Lacks c bs h.1)

-- The first part ends at the first separator.
pub split-append : (c : ℕ) (s rest : Text) → Lacks c s → split c (s ++ c ∷ rest) ≡ s ∷ split c rest
unfolding split
split-append c [] rest h = ground arith
split-append c (b ∷ bs) rest h = ground (arith, split-append c bs rest h.1)

pub Lacks-append : (c : ℕ) (s t : Text) → Lacks c s → Lacks c t → Lacks c (s ++ t)
Lacks-append c [] t h k = k
Lacks-append c (b ∷ s) t h k = (h.0, Lacks-append c s t h.1 k)
