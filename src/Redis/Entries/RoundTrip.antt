-- ===== src/Redis/Entries/RoundTrip.antt =====
-- What is read from an entry is what was written into it.
use denim.Prelude.{ℕ, ◌≤◌, ◌≡◌, refl, ap, ◌∙◌, ℤ, List, [], ◌∷◌, ok, arith}
use denim.Text.{split, decimal, decimal_ℤ, u64_max}
use denim.Text.Find.{Lacks, split-Lacks, split-append}
use denim.Text.Decimal.{
  decimal-Lacks, decimal_ℤ-Lacks, FitsI64, parse_u64-decimal, parse_i64-decimal_ℤ,
}
use denim.Redis.Entries.{
  Base64, to_string, get_field_metadata, get_order_metadata, create_payload_entry, decode_bytes,
}

-- What base64 does: it decodes what it encodes, and it uses no colon.
pub record IsBase64 (base64 : Base64) : Type 0 where
  pub decode-encode : (bytes : List ℕ) → base64.decode (base64.encode bytes) ≡ ok bytes
  pub no_colon : (bytes : List ℕ) → Lacks b':' (base64.encode bytes)

module _ (base64 : Base64) (law : IsBase64 base64) where
  pub split-entry :
      (id : ℕ) (value : List ℕ) (order : ℤ)
      → split b':' (create_payload_entry base64 id value order)
        ≡ decimal id ∷ base64.encode value ∷ decimal_ℤ order ∷ []
  unfolding create_payload_entry
  split-entry id value order =
      split-append b':' (decimal id) _ (decimal-Lacks b':' id (omega arith))
      ∙ ap (◌∷◌ (decimal id)) (
          split-append b':' (base64.encode value) _ (law.no_colon value)
          ∙ ap (◌∷◌ (base64.encode value))
              (split-Lacks b':' (decimal_ℤ order) (decimal_ℤ-Lacks b':' order (omega arith))))

  pub get_field_metadata-entry :
      (id : ℕ) (value : List ℕ) (order : ℤ)
      → id ≤ u64_max
      → get_field_metadata (create_payload_entry base64 id value order) ≡ ok id
  unfolding get_field_metadata to_string
  get_field_metadata-entry id value order small =
      rw (split-entry id value order, parse_u64-decimal id small) refl

  -- The three parts of an entry are read back: the identifier if it fits into 64 bits, the bytes, and
  -- the order if it fits.
  pub create_payload_entry-parts :
      (id : ℕ) (value : List ℕ) (order : ℤ)
      → id ≤ u64_max
      → FitsI64 order
      → let entry = create_payload_entry base64 id value order in
        (get_field_metadata entry ≡ ok id)
        × (decode_bytes base64 entry ≡ ok value)
        × (get_order_metadata entry ≡ ok order)
  unfolding get_field_metadata get_order_metadata decode_bytes to_string
  create_payload_entry-parts id value order small fits = (
    get_field_metadata-entry id value order small,
    rw (split-entry id value order, law.decode-encode value) refl,
    rw (split-entry id value order, parse_i64-decimal_ℤ order fits) refl,
  )
