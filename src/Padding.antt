-- ===== src/Padding.antt =====
-- Message padding: `get_padded_message_length` and `pad_message` of client/src/encryption.rs, and
-- `unpad_message` of common/src/envelope.rs, which undoes it. Bytes are numbers below 256.
pub mod RoundTrip
use denim.Prelude.{
  ℕ, zero, suc, ◌+◌, ◌-◌, ◌*◌, ◌/◌, ◌%◌, List, [], ◌∷◌, length, take, set, replicate, ltb, ◌==◌,
  Run, ok, err, panic, ◌>>=◌, checked_sub, if◌then◌else◌,
}

-- The byte that ends a message, 0x80.
abbrev pub terminator : ℕ
terminator = 0x80

unfoldable pub get_padded_message_length : ℕ → ℕ
get_padded_message_length len =
    let with_terminator = len + 1 in
    let part_count = with_terminator / 160 in
    (if with_terminator % 160 == 0 then part_count else part_count + 1) * 160

-- `for i in 0..message.len() { plaintext[i] = message[i] }`: an index past the end panics.
unfoldable pub copy_into : List ℕ → List ℕ → Run (List ℕ)
copy_into [] plaintext = ok plaintext
copy_into (b ∷ bs) [] = panic
copy_into (b ∷ bs) (_ ∷ rest) = do copied ← copy_into bs rest; ok (b ∷ copied)

-- `v[i] = b`
unfoldable pub write_at : ℕ → ℕ → List ℕ → Run (List ℕ)
write_at i b v = if ltb i (length v) then ok (set v i b) else panic

unfoldable pub pad_message : List ℕ → Run (List ℕ)
unfolding get_padded_message_length copy_into write_at
pad_message message = do
  len ← checked_sub (get_padded_message_length (length message + 1)) 1
  plaintext ← copy_into message (replicate len 0)
  write_at (length message) terminator plaintext

-- The loop over the indices `i` of the message, of which `rest` is left.
unfoldable pub unpad_loop : List ℕ → ℕ → List ℕ → Run (List ℕ)
unpad_loop message i [] = err "UnpadError"
unpad_loop message i (b ∷ rest) =
    let more = unpad_loop message (suc i) rest in
    if b == terminator then ok (take i message) else more

unfoldable pub unpad_message : List ℕ → Run (List ℕ)
unfolding unpad_loop
unpad_message message = unpad_loop message 0 message
