-- ===== src/Text/Decimal.antt =====
-- Printing and parsing a number.
use denim.Prelude.{
  ◌⊎◌, ℕ, zero, suc, ◌+◌, ◌*◌, ◌/◌, ◌%◌, ◌≤◌, ◌<◌, ◌≡◌, ◌∙◌, inl, inr, some, [], ◌∷◌, arith, ltb,
  Bool-cases, u32_max, ap, ◌≢◌, ℤ, pos, negsuc, refl, ◌==◌, false,
}
use denim.Text.Find.{Lacks}
use denim.Text.{
  Text, decimal_loop, decimal, parse_digits, parse_unsigned, parse_signless, parse_u32, parse_u64,
  u64_max, i64_max, parse_i64, decimal_ℤ,
}

-- A digit in front of a text is read into the accumulator.
parse_digits-digit :
    (max d acc : ℕ) (bs : Text)
    → d < 10
    → acc * 10 + d ≤ max
    → parse_digits max ((b'0' + d) ∷ bs) acc ≡ parse_digits max bs (acc * 10 + d)
unfolding parse_digits
parse_digits-digit max d acc bs h k = ground arith

parse_digits-decimal_loop :
    (max fuel n : ℕ) (acc : Text)
    → n < fuel
    → n ≤ max
    → parse_digits max (decimal_loop fuel n acc) 0 ≡ parse_digits max acc n
unfolding decimal_loop
parse_digits-decimal_loop max zero n acc h k = absurd (omega arith)
parse_digits-decimal_loop max (suc fuel) n acc h k = elim (Bool-cases (ltb n 10)) [
  | inl small ↦ rw small (
      parse_digits-digit max n 0 acc (ground arith) (omega arith)
      ∙ ap (parse_digits max acc) (omega arith))
  | inr large ↦ rw large (
      parse_digits-decimal_loop max fuel (n / 10) ((b'0' + n % 10) ∷ acc) (ground arith)
        (omega arith)
      ∙ parse_digits-digit max (n % 10) (n / 10) acc (omega arith) (omega arith)
      ∙ ap (parse_digits max acc) (omega arith))
]

decimal_loop-cons :
    (fuel n : ℕ) (acc : Text)
    → n < fuel
    → (d : ℕ) × (bs : Text) × (decimal_loop fuel n acc ≡ (b'0' + d) ∷ bs)
unfolding decimal_loop
decimal_loop-cons zero n acc h = absurd (omega arith)
decimal_loop-cons (suc fuel) n acc h = elim (Bool-cases (ltb n 10)) [
  | inl small ↦ (n, acc, rw small)
  | inr large ↦
      let (d, bs, e) = decimal_loop-cons fuel (n / 10) ((b'0' + n % 10) ∷ acc) (ground arith) in
      (d, bs, rw large e)
]

parse_signless-digits :
    (max d n : ℕ) (bs t : Text)
    → t ≡ (b'0' + d) ∷ bs
    → parse_digits max t 0 ≡ some n
    → parse_signless max t ≡ some n
unfolding parse_signless parse_unsigned
parse_signless-digits max d n bs [] e h = cc
parse_signless-digits max d n bs (b ∷ t) e h = ground arith

parse_unsigned-digits :
    (max n : ℕ) (bs : Text) (b : ℕ) (t : Text)
    → t ≡ b ∷ bs
    → parse_digits max t 0 ≡ some n
    → parse_unsigned max t ≡ some n
unfolding parse_unsigned
parse_unsigned-digits max n bs b [] e h = cc
parse_unsigned-digits max n bs b (c ∷ t) e h = h

-- A printed number that fits is parsed back.
pub parse_signless-decimal : (max n : ℕ) → n ≤ max → parse_signless max (decimal n) ≡ some n
unfolding decimal parse_digits
parse_signless-decimal max n h =
    let (d, bs, e) = decimal_loop-cons (suc n) n [] (omega arith) in
    parse_signless-digits max d n bs (decimal_loop (suc n) n []) e
      (parse_digits-decimal_loop max (suc n) n [] (omega arith) h)

parse_unsigned-decimal : (max n : ℕ) → n ≤ max → parse_unsigned max (decimal n) ≡ some n
unfolding decimal parse_digits
parse_unsigned-decimal max n h =
    let (d, bs, e) = decimal_loop-cons (suc n) n [] (omega arith) in
    parse_unsigned-digits max n bs (b'0' + d) (decimal_loop (suc n) n []) e
      (parse_digits-decimal_loop max (suc n) n [] (omega arith) h)

pub parse_u32-decimal : (n : ℕ) → n ≤ u32_max → parse_u32 (decimal n) ≡ some n
unfolding parse_u32
parse_u32-decimal n h = parse_signless-decimal u32_max n h

pub parse_u64-decimal : (n : ℕ) → n ≤ u64_max → parse_u64 (decimal n) ≡ some n
unfolding parse_u64
parse_u64-decimal n h = parse_signless-decimal u64_max n h

parse_i64-digits :
    (d n : ℕ) (bs t : Text)
    → t ≡ (b'0' + d) ∷ bs
    → parse_signless i64_max t ≡ some n
    → parse_i64 t ≡ some (pos n)
unfolding parse_i64
parse_i64-digits d n bs [] e h = cc
parse_i64-digits d n bs (b ∷ t) e h =
    let other : (b == b'-') ≡ false = ground arith in rw (other, h) refl

-- What fits into an `i64`.
abbrev pub FitsI64 : ℤ → Type 0
FitsI64 (pos n) = n ≤ i64_max
FitsI64 (negsuc n) = n ≤ i64_max

pub parse_i64-decimal_ℤ : (z : ℤ) → FitsI64 z → parse_i64 (decimal_ℤ z) ≡ some z
unfolding parse_i64 decimal
parse_i64-decimal_ℤ (pos n) h =
    let (d, bs, e) = decimal_loop-cons (suc n) n [] (omega arith) in
    parse_i64-digits d n bs (decimal n) e (parse_signless-decimal i64_max n h)
parse_i64-decimal_ℤ (negsuc n) h =
    rw (parse_unsigned-decimal (suc i64_max) (suc n) (omega arith)) refl

decimal_loop-Lacks :
    (c fuel n : ℕ) (acc : Text)
    → n < fuel
    → (b'9' < c) ⊎ (c < b'0')
    → Lacks c acc
    → Lacks c (decimal_loop fuel n acc)
unfolding decimal_loop
decimal_loop-Lacks c zero n acc h k l = absurd (omega arith)
decimal_loop-Lacks c (suc fuel) n acc h k l = elim (Bool-cases (ltb n 10)) [
  | inl small ↦ rw small (not_digit n (ground arith), l)
  | inr large ↦ rw large (
      decimal_loop-Lacks c fuel (n / 10) ((b'0' + n % 10) ∷ acc) (ground arith) k
        (not_digit (n % 10) (omega arith), l))
]
  where
    not_digit : (d : ℕ) → d < 10 → (b'0' + d) ≢ c
    not_digit d small e = elim k [ inl above ↦ omega arith | inr below ↦ omega arith ]

-- A printed number has no byte above the digits.
pub decimal-Lacks : (c n : ℕ) → b'9' < c → Lacks c (decimal n)
unfolding decimal
decimal-Lacks c n h = decimal_loop-Lacks c (suc n) n [] (omega arith) (inl h) tt

pub decimal-Lacks_below : (c n : ℕ) → c < b'0' → Lacks c (decimal n)
unfolding decimal
decimal-Lacks_below c n h = decimal_loop-Lacks c (suc n) n [] (omega arith) (inr h) tt

pub decimal_ℤ-Lacks : (c : ℕ) (z : ℤ) → b'9' < c → Lacks c (decimal_ℤ z)
decimal_ℤ-Lacks c (pos n) h = decimal-Lacks c n h
decimal_ℤ-Lacks c (negsuc n) h = (dash_before, decimal-Lacks c (suc n) h)
  where
    dash_before : b'-' ≢ c
    dash_before e = omega arith

-- Printing is injective.
pub decimal-injective : (n m : ℕ) → decimal n ≡ decimal m → n ≡ m
decimal-injective n m e =
    let p : parse_signless (n + m) (decimal n) ≡ some n =
      parse_signless-decimal (n + m) n (omega arith) in
    let q : parse_signless (n + m) (decimal m) ≡ some m =
      parse_signless-decimal (n + m) m (omega arith) in
    cc
