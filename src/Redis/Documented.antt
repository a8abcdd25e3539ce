-- ===== src/Redis/Documented.antt =====
-- What Redis documents of the commands that the program sends, on a view of the stored data, and what
-- it is for a server to be as documented.
use denim.Prelude.{
  ℕ, zero, suc, ◌+◌, ◌-◌, ◌*◌, ◌/◌, ◌%◌, ◌≤◌, ◌≡◌, refl, ap, ◌∙◌, arith, pos_part, neg_part, Bool,
  true, false, ◌&&◌, ◌||◌, Option, none, some, String, List, [], ◌∷◌, map, length, take, drop, ltb,
  leb, ◌==◌, ok, err, panic, out_of_fuel, Run, if◌then◌else◌,
}
use denim.Prelude.Effects.{Ends}
use denim.Text.{Text, text_eqb, decimal, parse_u64, i64_max}
use denim.Redis.{
  connect, Command, Reply, Bound, Exchange, Server, run, finish, call, nil, done, int, bulk, array,
  get_key, del_key, exists, expire, zcard, setex, sadd, hexists, hget, hdel, hincrby, hset, zadd,
  zadd_nx, zrange, zrange_byscore, zremrangebyscore, zrem, above, at, infinity, seen,
}

-- The sets that `sadd` fills are never read; nor is the time that a key has left.
pub record View : Type 0 where
  pub strings : Text → Option Text
  pub hashes : Text → Text → Option Text
  pub zsets : Text → List (ℕ × Text)

abbrev pub update : {A : Type 0} → (Text → A) → Text → A → Text → A
update f k a j = if text_eqb k j then a else f j

-- Scores are doubles: a number beyond 2^53 is rounded to the nearest multiple of the spacing of the
-- doubles around it, the even one if there are two.
abbrev pub exact_max : ℕ
exact_max = 9007199254740992

unfoldable pub spacing : ℕ → ℕ → ℕ → ℕ
spacing zero n unit = unit
spacing (suc exponents) n unit =
    let wider = spacing exponents n (2 * unit) in if ltb n (exact_max * unit) then unit else wider

unfoldable pub rounded : ℕ → ℕ → ℕ
rounded n unit =
    let below = n / unit in
    let rest = 2 * (n % unit) in
    if ltb rest unit || rest == unit && below % 2 == 0 then below * unit else (below + 1) * unit

unfoldable pub double : ℕ → ℕ
unfolding spacing rounded
double n = if leb n exact_max then n else rounded n (spacing 1024 n 1)

below_exact : (n : ℕ) → n ≤ exact_max → leb n exact_max ≡ true
below_exact n h = ground arith

pub double-exact : (n : ℕ) → n ≤ exact_max → double n ≡ n
unfolding double
double-exact n h = rw (below_exact n h) refl

-- Members are ordered by their scores, and equal scores by the bytes of the member.
abbrev pub text_ltb : Text → Text → Bool
text_ltb s [] = false
text_ltb [] (b ∷ t) = true
text_ltb (a ∷ s) (b ∷ t) = ltb a b || a == b && text_ltb s t

abbrev pub before : ℕ × Text → ℕ × Text → Bool
before (n, s) (m, t) = ltb n m || n == m && text_ltb s t

unfoldable pub place : ℕ × Text → List (ℕ × Text) → List (ℕ × Text)
place x [] = x ∷ []
place x (y ∷ l) = let rest = place x l in if before y x then y ∷ rest else x ∷ y ∷ l

unfoldable pub has_member : Text → List (ℕ × Text) → Bool
has_member m [] = false
has_member m ((n, t) ∷ l) = text_eqb m t || has_member m l

-- The others, and how many were taken out.
unfoldable pub without_members : List Text → List (ℕ × Text) → List (ℕ × Text) × ℕ
without_members ms [] = ([], 0)
without_members ms ((n, t) ∷ l) =
    let (rest, count) = without_members ms l in
    if is_one_of t ms then (rest, suc count) else ((n, t) ∷ rest, count)
  where
    is_one_of : Text → List Text → Bool
    is_one_of t [] = false
    is_one_of t (m ∷ ms) = text_eqb m t || is_one_of t ms

abbrev pub no_float : String
no_float = "ERR min or max is not a float"

abbrev pub at_least : Option ℕ → Option (ℕ → Bool)
at_least none = none
at_least (some m) = some λ n. leb (double m) n

abbrev pub at_most : Option ℕ → Option (ℕ → Bool)
at_most none = none
at_most (some m) = some λ n. leb n (double m)

-- Whether a score is at least, or at most, a bound.
abbrev pub least : Bound → Option (ℕ → Bool)
least (above z) = some λ n. ltb (double (pos_part z)) (n + double (neg_part z))
least (at t) = at_least (parse_u64 t)
least infinity = some λ n. false

abbrev pub most : Bound → Option (ℕ → Bool)
most (above z) = some λ n. ltb (n + double (neg_part z)) (double (pos_part z))
most (at t) = at_most (parse_u64 t)
most infinity = some λ n. true

abbrev pub both : Option (ℕ → Bool) → Option (ℕ → Bool) → Option (ℕ → Bool)
both (some p) (some q) = some λ n. p n && q n
both _ _ = none

unfoldable pub members_where : (ℕ → Bool) → List (ℕ × Text) → List Text
members_where p [] = []
members_where p ((n, t) ∷ l) = let rest = members_where p l in if p n then t ∷ rest else rest

unfoldable pub remove_where : (ℕ → Bool) → List (ℕ × Text) → List (ℕ × Text)
remove_where p [] = []
remove_where p ((n, t) ∷ l) = let rest = remove_where p l in if p n then rest else (n, t) ∷ rest

abbrev pub limited : Option ℕ → List Text → List Text
limited none ts = ts
limited (some n) ts = take n ts

abbrev pub as_bulk : Option Text → Reply
as_bulk none = nil
as_bulk (some t) = bulk t

abbrev pub as_bool : Option Text → Reply
as_bool none = int 0
as_bool (some t) = int 1

abbrev pub members : List (ℕ × Text) → List Text
members = map λ x. x.1

abbrev pub set_hash : View → Text → Text → Option Text → View
set_hash v k field value = record v { hashes = update v.hashes k (update (v.hashes k) field value) }

abbrev pub set_zset : View → Text → List (ℕ × Text) → View
set_zset v k l = record v { zsets = update v.zsets k l }

-- `HINCRBY` of a field that is absent starts at 0; it fails on other text and on overflow.
abbrev pub incremented : Option Text → ℕ → Run ℕ
incremented none n = ok n
incremented (some t) n = elim (parse_u64 t) [
  | none ↦ err "ERR hash value is not an integer"
  | some m ↦
      if leb (m + n) i64_max then ok (m + n) else err "ERR increment or decrement would overflow"
]

abbrev pub put_count : Run ℕ → Text → Text → View → Run Reply × View
put_count (ok n) k field v = (ok (int n), set_hash v k field (some (decimal n)))
put_count (err e) k field v = (err e, v)
put_count panic k field v = (panic, v)
put_count out_of_fuel k field v = (out_of_fuel, v)

-- `ZADD` moves a member that is there already; with `NX` it leaves it.
abbrev pub zadd_to : Bool → ℕ → Text → List (ℕ × Text) → List (ℕ × Text) × ℕ
zadd_to nx score m l =
    if has_member m l
    then (if nx then l else place (score, m) (without_members (m ∷ []) l).0, 0)
    else (place (score, m) l, 1)

abbrev pub selected : Option (ℕ → Bool) → Option ℕ → View → Text → Run Reply × View
selected none limit v k = (err no_float, v)
selected (some p) limit v k = (ok (array (limited limit (members_where p (v.zsets k)))), v)

abbrev pub cut : Option (ℕ → Bool) → View → Text → Run Reply × View
cut none v k = (err no_float, v)
cut (some p) v k = (
  ok (int (length (v.zsets k) - length (remove_where p (v.zsets k)))),
  set_zset v k (remove_where p (v.zsets k)),
)

-- A key holds one kind of value; the program never uses one for two. The replies that the program does not
-- read are left out (`done`).
unfoldable pub documented : Server View
unfolding double place has_member without_members members_where remove_where decimal parse_u64
documented connect v = (ok done, v)
documented (get_key k) v = (ok (as_bulk (v.strings k)), v)
documented (del_key k) v = (
  ok done,
  record {
    strings = update v.strings k none;
    hashes = update v.hashes k λ field. none;
    zsets = update v.zsets k [];
  },
)
documented (exists k) v = (ok (as_bool (v.strings k)), v)
documented (expire k) v = (ok done, v)
documented (zcard k) v = (ok (int (length (v.zsets k))), v)
documented (setex k t) v = (ok done, record v { strings = update v.strings k (some t) })
documented (sadd k t) v = (ok done, v)
documented (hexists k field) v = (ok (as_bool (v.hashes k field)), v)
documented (hget k field) v = (ok (as_bulk (v.hashes k field)), v)
documented (hdel k field) v = (ok done, set_hash v k field none)
documented (hincrby k field n) v = put_count (incremented (v.hashes k field) n) k field v
documented (hset k field t) v = (ok done, set_hash v k field (some t))
documented (zadd k score m) v =
    let (l, count) = zadd_to false (double score) m (v.zsets k) in (ok (int count), set_zset v k l)
documented (zadd_nx k score m) v =
    let (l, count) = zadd_to true (double score) m (v.zsets k) in (ok (int count), set_zset v k l)
documented (zrange k start stop) v =
    (ok (array (members (take (stop + 1 - start) (drop start (v.zsets k))))), v)
documented (zrange_byscore k min max limit) v = selected (both (least min) (most max)) limit v k
documented (zremrangebyscore k min max) v = cut (both (least min) (most max)) v k
documented (zrem k ms) v =
    let (l, count) = without_members ms (v.zsets k) in (ok (int count), set_zset v k l)

-- The server answers each command as documented, as far as the program reads its replies, and the
-- connection does not fail.
abbrev pub IsDocumented : {S : Type 0} → Server S → (S → View) → Type 0
IsDocumented {S} execute view =
    (c : Command) (s : S)
    → (seen c (execute c s).0 ≡ seen c (documented c (view s)).0)
      × (view (execute c s).1 ≡ (documented c (view s)).1)

module _ {S : Type 0} (execute : Server S) (view : S → View)
    (as_documented : IsDocumented execute view) where
  run-at :
      {A : Type 0} (k : Run Reply → Exchange A) {r r' : Run Reply} {v v' : View}
      → r ≡ r'
      → v ≡ v'
      → run documented (k r) v ≡ run documented (k r') v'
  run-at k e f = rw (e, f) refl

  -- An exchange with such a server is one with the documented server.
  pub run-documented :
      {A : Type 0} (p : Exchange A) (s : S)
      → ((run execute p s).0 ≡ (run documented p (view s)).0)
        × (view (run execute p s).1 ≡ (run documented p (view s)).1)
  run-documented (finish r) s = (refl, refl)
  run-documented (call c k) s =
      let (reply, left) = as_documented c s in
      let (same, view_same) = run-documented (k (seen c (execute c s).0)) (execute c s).1 in
      let e = run-at k reply left in (same ∙ ap (λ r. r.0) e, view_same ∙ ap (λ r. r.1) e)

  Ends-same :
      {A : Type 0} (r : Run A × S) (r' : Run A × View) (P : A → View → Type 0)
      → r.0 ≡ r'.0
      → view r.1 ≡ r'.1
      → Ends r' P
      → Ends r λ a s'. P a (view s')
  Ends-same (ok a, s) (ok b, v) P e f h = ground arith
  Ends-same (err a, s) (ok b, v) P e f h = cc
  Ends-same (panic, s) (ok b, v) P e f h = cc
  Ends-same (out_of_fuel, s) (ok b, v) P e f h = cc
  Ends-same r (err x, v) P e f h = absurd h
  Ends-same r (panic, v) P e f h = absurd h
  Ends-same r (out_of_fuel, v) P e f h = absurd h

  -- What is shown of the documented server holds of this one.
  pub Ends-documented :
      {A : Type 0} (p : Exchange A) (P : A → View → Type 0) (s : S)
      → Ends (run documented p (view s)) P
      → Ends (run execute p s) λ a s'. P a (view s')
  Ends-documented p P s h =
      let (same, left) = run-documented p s in
      Ends-same (run execute p s) (run documented p (view s)) P same left h
