-- ===== src/Redis/Queue/Lookup.antt =====
-- Finding and replacing entries by identifier or text in the stored queue.
use denim.Prelude.{
  ℕ, ◌≤◌, ◌<◌, ◌≡◌, ◌≢◌, refl, ap, sym, ◌∙◌, ℤ, Bool, true, false, ◌&&◌, List, [], ◌∷◌, ◌++◌,
  length, length-append, arith, leb, Bool-cases, inl, inr,
}
use denim.Text.{Text, codes, text_eqb, decimal, decimal_ℤ, split}
use denim.Text.Decimal.{decimal-injective}
use denim.Redis.Documented.{place, has_member, without_members, members_where, remove_where}
use denim.Redis.Entries.{Base64, create_payload_entry}
use denim.Redis.Entries.RoundTrip.{IsBase64, split-entry}
use denim.Redis.Operations.{Keys, rev}
use denim.Redis.Queue.{Entry, Rises, stored}

pub text_eqb_self : (t : Text) → text_eqb t t ≡ true
text_eqb_self [] = refl
text_eqb_self (b ∷ t) = ground (arith, text_eqb_self t)

pub text_eqb→eq : (s t : Text) → text_eqb s t ≡ true → s ≡ t
text_eqb→eq [] [] h = refl
text_eqb→eq [] (b ∷ t) h = cc
text_eqb→eq (a ∷ s) [] h = cc
text_eqb→eq (a ∷ s) (b ∷ t) h = ground (arith, text_eqb→eq s t)

pub text_eqb_ne : (s t : Text) → s ≢ t → text_eqb s t ≡ false
text_eqb_ne s t h = elim (Bool-cases (text_eqb s t)) [
  | inl e ↦ absurd (h (text_eqb→eq s t e))
  | inr e ↦ e
]

pub text_eqb_sym : (s t : Text) → text_eqb s t ≡ text_eqb t s
text_eqb_sym [] [] = refl
text_eqb_sym [] (b ∷ t) = refl
text_eqb_sym (a ∷ s) [] = refl
text_eqb_sym (a ∷ s) (b ∷ t) = ground (arith, text_eqb_sym s t)

-- A key and its reverse key differ.
pub rev_apart : (k : Text) → (text_eqb k (rev k) ≡ false) × (text_eqb (rev k) k ≡ false)
rev_apart k = (
  text_eqb_ne k (rev k) λ e. longer (ap length e),
  text_eqb_ne (rev k) k λ e. longer (ap length (sym e)),
)
  where
    longer : length k ≢ length (rev k)
    longer e = omega (arith, length-append k (codes ":rev"))

pub Rises-le : (lo hi : ℕ) (q : List Entry) → Rises lo hi q → lo ≤ hi
Rises-le lo hi [] r = r
Rises-le lo hi (e ∷ q) r = let later = Rises-le e.id hi q r.1 in omega arith

abbrev pub same_score : ℕ → ℕ → Bool
same_score id n = leb id n && leb n id

module _ (base64 : Base64) (law : IsBase64 base64) where
  -- Entries with different identifiers are different texts.
  pub entry_ne :
      (id id' : ℕ) (value value' : List ℕ) (order order' : ℤ)
      → id ≢ id'
      → text_eqb
          (create_payload_entry base64 id value order)
          (create_payload_entry base64 id' value' order')
        ≡ false
  entry_ne id id' value value' order order' h =
      text_eqb_ne (create_payload_entry base64 id value order)
        (create_payload_entry base64 id' value' order') λ e. h (same_id e)
    where
      same_id :
          create_payload_entry base64 id value order ≡ create_payload_entry base64 id' value' order'
          → id ≡ id'
      same_id e =
          let parts : decimal id ∷ base64.encode value ∷ decimal_ℤ order ∷ []
              ≡ decimal id' ∷ base64.encode value' ∷ decimal_ℤ order' ∷ [] =
            sym (split-entry base64 law id value order)
            ∙ ap (split b':') e
            ∙ split-entry base64 law id' value' order' in
          let same : decimal id ≡ decimal id' = cc in decimal-injective id id' same

  module _ (keys : Keys) where
    pub members_where-stored :
        (id lo hi : ℕ) (q : List Entry)
        → id ≤ lo
        → Rises lo hi q
        → members_where (same_score id) (stored base64 keys q) ≡ []
    unfolding members_where
    members_where-stored id lo hi [] h r = refl
    members_where-stored id lo hi (e ∷ q) h r = ground (arith, members_where-stored id e.id hi q)

    pub remove_where-stored :
        (id lo hi : ℕ) (q : List Entry)
        → id ≤ lo
        → Rises lo hi q
        → remove_where (same_score id) (stored base64 keys q) ≡ stored base64 keys q
    unfolding remove_where
    remove_where-stored id lo hi [] h r = refl
    remove_where-stored id lo hi (e ∷ q) h r = ground (arith, remove_where-stored id e.id hi q)

    pub has_member-stored :
        (id : ℕ) (value : List ℕ) (order : ℤ) (lo hi : ℕ) (q : List Entry)
        → id ≤ lo
        → Rises lo hi q
        → has_member (create_payload_entry base64 id value order) (stored base64 keys q) ≡ false
    unfolding has_member
    has_member-stored id value order lo hi [] h r = refl
    has_member-stored id value order lo hi (e ∷ q) h r =
        rw (entry_ne id e.id value e.value order e.order (λ same. omega arith))
          (has_member-stored id value order e.id hi q (omega arith) r.1)

    pub without_members-stored :
        (id : ℕ) (value : List ℕ) (order : ℤ) (lo hi : ℕ) (q : List Entry)
        → id ≤ lo
        → Rises lo hi q
        → without_members (create_payload_entry base64 id value order ∷ []) (stored base64 keys q)
          ≡ (stored base64 keys q, 0)
    unfolding without_members
    without_members-stored id value order lo hi [] h r = refl
    without_members-stored id value order lo hi (e ∷ q) h r =
        rw
          (
            entry_ne id e.id value e.value order e.order (λ same. omega arith),
            without_members-stored id value order e.id hi q (omega arith) r.1,
          )
          refl

    -- An identifier below all others goes to the front, one above all to the back.
    pub place-front :
        (id : ℕ) (t : Text) (hi : ℕ) (q : List Entry)
        → Rises id hi q
        → place (id, t) (stored base64 keys q) ≡ (id, t) ∷ stored base64 keys q
    unfolding place
    place-front id t hi [] r = refl
    place-front id t hi (e ∷ q) r = ground arith

    pub place-back :
        (id : ℕ) (t : Text) (lo hi : ℕ) (q : List Entry)
        → Rises lo hi q
        → hi < id
        → place (id, t) (stored base64 keys q) ≡ stored base64 keys q ++ (id, t) ∷ []
    unfolding place
    place-back id t lo hi [] r h = refl
    place-back id t lo hi (e ∷ q) r h =
        let later = Rises-le e.id hi q r.1 in ground (arith, place-back id t e.id hi q r.1 h)
