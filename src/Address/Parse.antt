-- ===== src/Address/Parse.antt =====
-- Printing and parsing the two texts.
use denim.Prelude.{ℕ, ◌≤◌, ◌≡◌, ◌∷◌, ◌++◌, ok, u32_max}
use denim.Text.{Text, strip_dot, decimal}
use denim.Text.Decimal.{parse_u32-decimal}
use denim.Text.Find.{Lacks, find-append, split_at-length}
use denim.Address.{parse_protocol_address}

-- The address that is written as its name, a dot and its device identifier is read back, if the name
-- has no dot and the identifier fits into 32 bits.
pub parse_protocol_address-print :
    (name : Text) (id : ℕ)
    → Lacks b'.' name
    → id ≤ u32_max
    → parse_protocol_address (name ++ b'.' ∷ decimal id)
      ≡ ok (record { name = name; device_id = id })
unfolding parse_protocol_address strip_dot
parse_protocol_address-print name id no_dot fits = rw (
  find-append b'.' name (decimal id) no_dot,
  split_at-length name (b'.' ∷ decimal id),
  parse_u32-decimal id fits,
)
