-- ===== src/Padding/RoundTrip.antt =====
-- What padding and unpadding give together.
use mathlib.Core.List.{Mem, mem-cons, not-mem-nil}
use mathlib.Core.Logic.Or
use mathlib.Core.HLevel.{⊥_prop}
use denim.Prelude.{
  ==_iff, ℕ, zero, suc, ◌+◌, ◌-◌, ◌%◌, ◌≤◌, ◌<◌, ◌≡◌, ◌↔◌, inl, inr, refl, sym, subst, ap, ◌∙◌,
  List, [], ◌∷◌, ◌++◌, arith, length, length-append, length-replicate, take, set, replicate, ◌==◌,
  Run, ok, ◌>>=◌, checked_sub_le, lt→ltb, if◌then◌else◌, Bool-cases, append_assoc, append-nil,
  String,
}
use denim.Padding.{
  terminator, get_padded_message_length, copy_into, write_at, pad_message, unpad_loop,
  unpad_message,
}

-- The padded length is a multiple of 160 above the length, by at most 160.
padded_length :
    (n : ℕ)
    → (n < get_padded_message_length n)
      × (get_padded_message_length n ≤ n + 160)
      × (get_padded_message_length n % 160 ≡ 0)
unfolding get_padded_message_length
padded_length n = ground arith

copy_into-replicate :
    (bs : List ℕ) (len k : ℕ)
    → len ≡ length bs + k
    → copy_into bs (replicate len 0) ≡ ok (bs ++ replicate k 0)
unfolding copy_into
copy_into-replicate [] len k e = rw e (ap (λ n. ok (replicate n 0)) (omega arith))
copy_into-replicate (b ∷ bs) zero k e = absurd (omega arith)
copy_into-replicate (b ∷ bs) (suc len) k e = rw (copy_into-replicate bs len k (omega arith))

set-append :
    (bs : List ℕ) (x b : ℕ) (rest : List ℕ) → set (bs ++ x ∷ rest) (length bs) b ≡ bs ++ b ∷ rest
set-append [] x b rest = refl
set-append (c ∷ bs) x b rest = ap (◌∷◌ c) (set-append bs x b rest)

write_at-append :
    (bs : List ℕ) (x b : ℕ) (rest : List ℕ)
    → write_at (length bs) b (bs ++ x ∷ rest) ≡ ok (bs ++ b ∷ rest)
unfolding write_at
write_at-append bs x b rest =
    rw (lt→ltb (length bs) (length (bs ++ x ∷ rest)) (omega (arith, length-append bs (x ∷ rest))))
      (ap ok (set-append bs x b rest))

abbrev pub filler : List ℕ → ℕ
filler message = get_padded_message_length (length message + 1) - length message - 2

-- Padding never fails: it puts the terminator and zeros behind the message, up to one byte short of a
-- multiple of 160, and adds at most 160 bytes.
pub pad_message_lem :
    (message : List ℕ)
    → (pad_message message ≡ ok (message ++ terminator ∷ replicate (filler message) 0))
      × ((length (message ++ terminator ∷ replicate (filler message) 0) + 1) % 160 ≡ 0)
      × (length (message ++ terminator ∷ replicate (filler message) 0) ≤ length message + 160)
unfolding pad_message
pad_message_lem message =
    let (above, below, whole) = padded_length (length message + 1) in
    let size : length (message ++ terminator ∷ replicate (filler message) 0)
        ≡ get_padded_message_length (length message + 1) - 1 =
      omega (
        arith,
        length-append message (terminator ∷ replicate (filler message) 0),
        length-replicate {0} {A = ℕ} (filler message) 0,
      ) in
    (
      rw
          (
            checked_sub_le {E = String} (get_padded_message_length (length message + 1)) 1
                (omega arith),
            copy_into-replicate message (get_padded_message_length (length message + 1) - 1)
                (suc (filler message)) (omega arith),
          )
          (write_at-append message 0 terminator (replicate (filler message) 0)),
      omega arith,
      omega arith,
    )

-- The bytes in front of the first terminator.
abbrev pub before_terminator : List ℕ → List ℕ
before_terminator [] = []
before_terminator (b ∷ bs) = if b == terminator then [] else b ∷ before_terminator bs

take-length_append : (xs ys : List ℕ) → take (length xs) (xs ++ ys) ≡ xs
take-length_append [] ys = refl
take-length_append (x ∷ xs) ys = ap (◌∷◌ x) (take-length_append xs ys)

length-snoc : (xs : List ℕ) (x : ℕ) → length (xs ++ x ∷ []) ≡ suc (length xs)
length-snoc xs x = omega (arith, length-append xs (x ∷ []))

unpad_loop-terminated :
    (front rest zeros : List ℕ)
    → unpad_loop (front ++ (rest ++ terminator ∷ zeros)) (length front) (rest ++ terminator ∷ zeros)
      ≡ ok (front ++ before_terminator rest)
unfolding unpad_loop
unpad_loop-terminated front [] zeros =
    ap ok (take-length_append front (terminator ∷ zeros) ∙ sym (append-nil front))
unpad_loop-terminated front (b ∷ rest) zeros = elim (Bool-cases (b == terminator)) [
  | inl stop ↦
      rw stop (
        ap ok
          (take-length_append front (b ∷ (rest ++ terminator ∷ zeros)) ∙ sym (append-nil front)))
  | inr more ↦ rw more (
      subst
        (λ (whole : List ℕ).
          unpad_loop whole (suc (length front)) (rest ++ terminator ∷ zeros)
          ≡ ok (front ++ b ∷ before_terminator rest))
        (append_assoc front (b ∷ []) (rest ++ terminator ∷ zeros))
        (rw (← length-snoc front b, ← append_assoc front (b ∷ []) (before_terminator rest))
          (unpad_loop-terminated (front ++ b ∷ []) rest zeros)))
]

-- Unpadding a padded message gives the message up to its first terminator byte.
unpad-pad :
    (message : List ℕ) → (pad_message message >>= unpad_message) ≡ ok (before_terminator message)
unfolding unpad_message
unpad-pad message =
    rw (pad_message_lem message).0 (unpad_loop-terminated [] message (replicate (filler message) 0))

before_terminator-whole : (bs : List ℕ) → ¬ Mem terminator bs → before_terminator bs ≡ bs
before_terminator-whole [] h = refl
before_terminator-whole (b ∷ bs) h = elim (Bool-cases (b == terminator)) [
  | inl stop ↦ absurd (h (mem-cons.1 (Or.inl (sym ((==_iff b terminator).0 stop)))))
  | inr more ↦ rw more (ap (◌∷◌ b) (before_terminator-whole bs λ m. h (mem-cons.1 (Or.inr m))))
]

before_terminator-lacks : (bs : List ℕ) → ¬ Mem terminator (before_terminator bs)
before_terminator-lacks [] m = not-mem-nil m
before_terminator-lacks (b ∷ bs) m = elim (Bool-cases (b == terminator)) [
  | inl stop ↦ not-mem-nil (rw stop at m)
  | inr more ↦
      Or.elim ⊥_prop (mem-cons.0 (rw more at m)) (λ e. ground (arith, sym e))
        (before_terminator-lacks bs)
]

-- A message survives padding and unpadding exactly when it has no byte 0x80.
pub unpad-pad_iff :
    (message : List ℕ)
    → ((pad_message message >>= unpad_message) ≡ ok message) ↔ (¬ Mem terminator message)
unpad-pad_iff message = (
  λ e.
      subst (λ bs. ¬ Mem terminator bs) (ok_inj (sym (unpad-pad message) ∙ e))
        (before_terminator-lacks message),
  λ h. unpad-pad message ∙ ap ok (before_terminator-whole message h),
)
  where
    ok_inj : {a b : List ℕ} → ◌≡◌ {A = Run (List ℕ)} (ok a) (ok b) → a ≡ b
    ok_inj e = cc
