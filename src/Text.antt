-- ===== src/Text.antt =====
-- Text as the list of its UTF-8 bytes, with the functions of Rust's `str` that the program calls.
pub mod Decimal
pub mod Find
use denim.Prelude.{
  ℕ, zero, suc, ◌+◌, ◌-◌, ◌*◌, ◌/◌, ◌%◌, ◌≡◌, Bool, true, false, ◌&&◌, Option, none, some, List, [],
  ◌∷◌, ◌++◌, length, take, drop, ltb, leb, ◌==◌, Run, ok, panic, u32_max, if◌then◌else◌, String, ℤ,
  pos, negsuc,
}
use Prim.Native.Char.{code}
use Prim.Native.String

abbrev pub Text : Type 0
Text = List ℕ

-- The bytes of an ASCII literal.
abbrev pub codes : String → Text
codes String.[] = []
codes (String.◌∷◌ c s) = code c ∷ codes s

-- `s.find(c)` for a one-byte pattern.
unfoldable pub find : ℕ → Text → Option ℕ
find c [] = none
find c (b ∷ bs) =
    if b == c then some 0 else elim (find c bs) [ none ↦ none | some i ↦ some (suc i) ]

unfoldable pub starts_with : Text → Text → Bool
starts_with s [] = true
starts_with [] (p ∷ ps) = false
starts_with (b ∷ bs) (p ∷ ps) = b == p && starts_with bs ps

-- `s.split_at(i)` panics past the end.
unfoldable pub split_at : ℕ → Text → Run (Text × Text)
split_at i s = if leb i (length s) then ok (take i s, drop i s) else panic

-- `s.strip_prefix(".")`
unfoldable pub strip_dot : Text → Option Text
strip_dot [] = none
strip_dot (b ∷ bs) = if b == b'.' then some bs else none

-- `{}` of an unsigned number: its decimal digits. A number has fewer digits than its successor.
unfoldable pub decimal_loop : ℕ → ℕ → Text → Text
decimal_loop zero n acc = acc
decimal_loop (suc fuel) n acc =
    let more = decimal_loop fuel (n / 10) ((b'0' + n % 10) ∷ acc) in
    if ltb n 10 then (b'0' + n) ∷ acc else more

unfoldable pub decimal : ℕ → Text
unfolding decimal_loop
decimal n = decimal_loop (suc n) n []

-- `str::parse` of an unsigned number: an optional plus sign, then at least one digit, without overflow.
unfoldable pub parse_digits : ℕ → Text → ℕ → Option ℕ
parse_digits max [] acc = some acc
parse_digits max (b ∷ bs) acc =
    if leb b'0' b && leb b b'9'
    then (if leb (acc * 10 + (b - b'0')) max
        then parse_digits max bs (acc * 10 + (b - b'0'))
        else none)
    else none

unfoldable pub parse_unsigned : ℕ → Text → Option ℕ
unfolding parse_digits
parse_unsigned max [] = none
parse_unsigned max (b ∷ bs) = parse_digits max (b ∷ bs) 0

unfoldable pub parse_signless : ℕ → Text → Option ℕ
unfolding parse_unsigned
parse_signless max [] = none
parse_signless max (b ∷ bs) =
    if b == b'+' then parse_unsigned max bs else parse_unsigned max (b ∷ bs)

unfoldable pub parse_u32 : Text → Option ℕ
unfolding parse_signless
parse_u32 = parse_signless u32_max

abbrev pub u64_max : ℕ
u64_max = 18446744073709551615

unfoldable pub parse_u64 : Text → Option ℕ
unfolding parse_signless
parse_u64 = parse_signless u64_max

-- `s.split_once(c)` for a one-byte pattern.
unfoldable pub split_once : ℕ → Text → Option (Text × Text)
split_once c [] = none
split_once c (b ∷ bs) =
    if b == c
    then some ([], bs)
    else elim (split_once c bs) [ none ↦ none | some (front, back) ↦ some (b ∷ front, back) ]

-- `split(c)`: one part more than there are separators.
unfoldable pub split : ℕ → Text → List Text
split c [] = [] ∷ []
split c (b ∷ bs) =
    let rest = split c bs in
    if b == c
    then [] ∷ rest
    else elim rest [ [] ↦ (b ∷ []) ∷ [] | part ∷ parts ↦ (b ∷ part) ∷ parts ]

-- `{}` of a signed number.
abbrev pub decimal_ℤ : ℤ → Text
decimal_ℤ (pos n) = decimal n
decimal_ℤ (negsuc n) = b'-' ∷ decimal (suc n)

abbrev pub i64_max : ℕ
i64_max = 9223372036854775807

abbrev pub negate : ℕ → ℤ
negate zero = pos 0
negate (suc n) = negsuc n

-- `str::parse` of an `i64`: a sign, then digits.
unfoldable pub parse_i64 : Text → Option ℤ
unfolding parse_unsigned parse_signless
parse_i64 [] = none
parse_i64 (b ∷ bs) =
    if b == b'-'
    then elim (parse_unsigned (suc i64_max) bs) [ none ↦ none | some n ↦ some (negate n) ]
    else elim (parse_signless i64_max (b ∷ bs)) [ none ↦ none | some n ↦ some (pos n) ]

-- `==` of texts.
abbrev pub text_eqb : Text → Text → Bool
text_eqb [] [] = true
text_eqb (a ∷ s) (b ∷ t) = a == b && text_eqb s t
text_eqb _ _ = false
