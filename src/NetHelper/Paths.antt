-- ===== src/NetHelper/Paths.antt =====
-- A path that is put together from segments is taken apart again.
use denim.Prelude.{
  ℕ, zero, suc, ◌≤◌, ◌≡◌, refl, ap, Option, none, some, List, [], ◌∷◌, ◌++◌, length, get_elem?,
  arith, Run, ok, err, or_err, ◌>>=◌, leb, Option-cases, Bool-cases, inl, inr,
}
use denim.Text.{split, Text, starts_with}
use denim.Text.Find.{Lacks}
use denim.NetHelper.{PathExtractor, new_extractor, extract}

-- A slash in front of every segment.
abbrev pub join : List Text → Text
join [] = []
join (p ∷ ps) = b'/' ∷ (p ++ join ps)

abbrev pub AllLack : List Text → Type 0
AllLack [] = Unit {0}
AllLack (p ∷ ps) = Lacks b'/' p × AllLack ps

split-join :
    (p : Text) (ps : List Text) → Lacks b'/' p → AllLack ps → split b'/' (p ++ join ps) ≡ p ∷ ps
unfolding split
split-join [] [] h k = refl
split-join [] (q ∷ ps) h k = ap (◌∷◌ []) (split-join q ps k.0 k.1)
split-join (b ∷ p) ps h k = ground (arith, split-join p ps h.1 k)

get_elem?-past : (ps : List Text) (i : ℕ) → length ps ≤ i → get_elem? ps i ≡ none
get_elem?-past [] i h = refl
get_elem?-past (p ∷ ps) zero h = absurd (omega arith)
get_elem?-past (p ∷ ps) (suc i) h = get_elem?-past ps i (omega arith)

-- The segment at an index, parsed.
abbrev pub segment : {T : Type 0} → (Text → Option T) → Option Text → Run T
segment from_str none = err "PathExtractor: Larger than count"
segment from_str (some part) = or_err (from_str part) "failed to convert"

extract-segment :
    {T : Type 0} (from_str : Text → Option T) (e : PathExtractor) (index : ℕ)
    → extract from_str e index ≡ segment from_str (get_elem? e.parts index)
unfolding extract
extract-segment from_str e index = elim (Bool-cases (leb (length e.parts) index)) [
  | inl past ↦ rw (past, get_elem?-past e.parts index (ground arith))
  | inr inside ↦ elim (Option-cases (get_elem? e.parts index)) [
    | inl missing ↦ rw (inside, missing)
    | inr (part, found) ↦ rw (inside, found)
  ]
]

extractor-join :
    (p : Text) (ps : List Text)
    → Lacks b'/' p
    → AllLack ps
    → new_extractor (join (p ∷ ps)) ≡ ok (record { parts = p ∷ ps })
unfolding new_extractor split starts_with
extractor-join p ps h k = rw (split-join p ps h k) (ground arith)

-- From a path of segments without slashes, `extract` gives at each index the segment that stands
-- there, parsed, and at an index past the last segment an error.
pub extract-join :
    {T : Type 0} (from_str : Text → Option T) (p : Text) (ps : List Text) (index : ℕ)
    → Lacks b'/' p
    → AllLack ps
    → (new_extractor (join (p ∷ ps)) >>= λ e. extract from_str e index)
      ≡ segment from_str (get_elem? (p ∷ ps) index)
extract-join from_str p ps index h k =
    rw (extractor-join p ps h k) (extract-segment from_str (record { parts = p ∷ ps }) index)
