-- ===== src/Redis/Queue.antt =====
-- The queue that a queue's keys in Redis stand for, and what it is for a store to hold one.
pub mod Page
pub mod Takes
pub mod Inserted
pub mod Insert
pub mod Dequeue
pub mod Lookup
use denim.Prelude.{
  ℕ, ◌≤◌, ◌<◌, ◌≡◌, ℤ, pos, negsuc, pred_ℤ, Bool, true, false, Option, none, some, List, [], ◌∷◌,
  ◌++◌, map, length, take, drop, ltb, if◌then◌else◌, ◌⊎◌,
}
use denim.Text.{Text, text_eqb, decimal}
use denim.Redis.Documented.{View, exact_max}
use denim.Redis.Entries.{Base64, create_payload_entry}
use denim.Redis.Operations.{Keys, rev, counter}

pub record Entry : Type 0 where
  pub id : ℕ
  pub guid : Text
  pub value : List ℕ
  pub order : ℤ

-- An `i32`.
abbrev pub FitsI32 : ℤ → Type 0
FitsI32 (pos n) = n < 2147483648
FitsI32 (negsuc n) = n < 2147483648

-- What the first entry gives for `n` bytes, and the queue that is left.
unfoldable pub take_from : ℕ → List Entry → (List ℕ × ℕ × ℤ) × List Entry
take_from n [] = (([], 0, pos 1), [])
take_from n (e ∷ q) =
    if ltb n (length e.value)
    then (
      (take n e.value, n, e.order),
      record e { value = drop n e.value; order = pred_ℤ e.order } ∷ q,
    )
    else ((e.value, length e.value, pos 2), q)

-- Identifiers rise along the queue, above `lo` and up to `hi`.
abbrev pub Rises : ℕ → ℕ → List Entry → Type 0
Rises lo hi [] = lo ≤ hi
Rises lo hi (e ∷ q) = (lo < e.id) × Rises e.id hi q

-- No entry has the guid.
abbrev pub Apart : Text → List Entry → Type 0
Apart guid [] = Unit {0}
Apart guid (e ∷ q) = (text_eqb guid e.guid ≡ false) × Apart guid q

abbrev pub Hashes : Type 0
Hashes = Text → Text → Option Text

module _ (base64 : Base64) (keys : Keys) where
  abbrev pub entry_text : Entry → Text
  entry_text e = create_payload_entry base64 e.id e.value e.order

  abbrev pub stored : List Entry → List (ℕ × Text)
  stored [] = []
  stored (e ∷ q) = (e.id, entry_text e) ∷ stored q

  -- The two hashes relate the identifier and the guid of an entry.
  pub record IsTracked (hashes : Hashes) (e : Entry) : Type 0 where
    pub id_of : hashes keys.metadata e.guid ≡ some (decimal e.id)
    pub guid_of : hashes (rev keys.metadata) (decimal e.id) ≡ some e.guid
    pub no_counter : text_eqb e.guid counter ≡ false
    pub small : FitsI32 e.order

  abbrev pub Tracked : Hashes → List Entry → Type 0
  Tracked hashes [] = Unit {0}
  Tracked hashes (e ∷ q) = IsTracked hashes e × Apart e.guid q × Tracked hashes q

  -- The counter, absent before the first insertion.
  abbrev pub Counts : Option Text → ℕ → Type 0
  Counts o n = (o ≡ some (decimal n)) ⊎ ((o ≡ none) × (n ≡ 0))

  pub record Stores (q : List Entry) (v : View) : Type 0 where
    pub count : ℕ
    pub entries : v.zsets keys.queue ≡ stored q
    pub tracked : Tracked v.hashes q
    pub counted : Counts (v.hashes keys.metadata counter) count
    pub rises : Rises 0 count q
    pub bounded : count ≤ exact_max

  -- A queue that is not being persisted.
  pub record Holds (q : List Entry) (v : View) : Type 0 where
    pub stores : Stores q v
    pub unlocked : v.strings keys.lock ≡ none

-- The keys of a queue do not collide.
pub record AreApart (keys : Keys) : Type 0 where
  pub index_apart : text_eqb keys.total_index keys.queue ≡ false
