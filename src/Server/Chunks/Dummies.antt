-- ===== src/Server/Chunks/Dummies.antt =====
-- Dummies cover deniable traffic: to the server they are nothing.
use denim.Prelude.{ℕ, ◌≡◌, refl, ap, Bool, not, List, [], ◌∷◌, ◌++◌, eqb_ℤ, inl, inr, Bool-cases}
use denim.Chunk.Types.{DenimChunk, to_i32, dummy}
use denim.Chunk.Ordered.Emits.{dummy_chunk}
use denim.Account.{Account, AuthenticatedDevice, ServiceIds}
use denim.Validators.{keep_if}
use denim.Server.{Host}
use denim.Server.Chunks.{Managers, receive_chunks, handle_receiving_chunks}

abbrev not_dummy : DenimChunk → Bool
not_dummy c = not (eqb_ℤ c.flags (to_i32 dummy))

keep_if-dummy :
    (before behind : List DenimChunk) (filler : List ℕ)
    → keep_if not_dummy (before ++ dummy_chunk filler ∷ behind)
      ≡ keep_if not_dummy (before ++ behind)
unfolding keep_if to_i32
keep_if-dummy [] behind filler = refl
keep_if-dummy (c ∷ before) behind filler = elim (Bool-cases (not_dummy c)) [
  | inl kept ↦ rw kept (ap (◌∷◌ c) (keep_if-dummy before behind filler))
  | inr dropped ↦ rw dropped (keep_if-dummy before behind filler)
]

module _ {S : Type 0} (host : Host S) (ids : ServiceIds) (m : Managers S) where
  -- A dummy chunk makes no difference, wherever it stands among the chunks of a request and whatever
  -- is in it: `handle_receiving_chunks` ends in the same way and in the same state without it.
  pub handle_receiving_chunks-dummy :
      (device : AuthenticatedDevice) (destination : Account) (before behind : List DenimChunk)
      (filler : List ℕ) (timestamp : ℕ) (s : S)
      → handle_receiving_chunks host ids m device destination
          (before ++ dummy_chunk filler ∷ behind)
          timestamp
          s
        ≡ handle_receiving_chunks host ids m device destination (before ++ behind) timestamp s
  unfolding handle_receiving_chunks to_i32
  handle_receiving_chunks-dummy device destination before behind filler timestamp s =
      ap (λ cs. receive_chunks host ids m device destination cs timestamp s)
        (keep_if-dummy before behind filler)
