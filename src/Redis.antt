-- ===== src/Redis.antt =====
-- Redis as server/src/storage/redis.rs and the caches use it: a call sends a command with its
-- arguments and reads the reply. The server itself is a parameter, `execute`.
pub mod Documented
pub mod Entries
pub mod Operations
pub mod Queue
use denim.Prelude.{
  ℕ, ℤ, String, Option, none, some, List, [], ◌∷◌, Outcome, ok, err, panic, out_of_fuel, Run,
}
use denim.Prelude.Effects.{Action}
use denim.Text.{Text}

-- The bound of a range of scores: `(n`, a number, or `+inf`.
pub data Bound : Type 0 where
  above : ℤ → Bound
  at : Text → Bound
  infinity : Bound

-- `cmd(…).arg(…)…`: a key first, then the fields, scores and members. `connect` is the `pool.get()`
-- of the caches, which may fail as a command may.
pub data Command : Type 0 where
  connect : Command
  get_key del_key exists expire zcard : Text → Command
  setex sadd : Text → Text → Command
  hexists hget hdel : Text → Text → Command
  hincrby : Text → Text → ℕ → Command
  hset : Text → Text → Text → Command
  zadd zadd_nx : Text → ℕ → Text → Command
  zrange : Text → ℕ → ℕ → Command
  zrange_byscore : Text → Bound → Bound → Option ℕ → Command
  zremrangebyscore : Text → Bound → Bound → Command
  zrem : Text → List Text → Command

pub data Reply : Type 0 where
  nil done : Reply
  int : ℕ → Reply
  bulk : Text → Reply
  array : List Text → Reply

-- A function that talks to Redis: it is finished, or goes on with the reply to a command.
pub data Exchange (A : Type 0) : Type 0 where
  finish : Run A → Exchange A
  call : Command → (Run Reply → Exchange A) → Exchange A

-- `execute` runs one command on the connection.
abbrev pub Server : Type 0 → Type 0
Server S = Command → Action S String Reply

infixl 5 ◌>>=◌ ◌>>◌
abbrev pub ◌>>=◌ : {A B : Type 0} → Exchange A → (A → Exchange B) → Exchange B
finish (ok a) >>= f = f a
finish (err e) >>= f = finish (err e)
finish panic >>= f = finish panic
finish out_of_fuel >>= f = finish out_of_fuel
call c k >>= f = call c λ r. k r >>= f

abbrev pub ◌>>◌ : {B : Type 0} → Exchange (Unit {0}) → Exchange B → Exchange B
m >> k = m >>= λ _. k

abbrev pub return : {A : Type 0} → A → Exchange A
return a = finish (ok a)

-- `match m { Ok(a) => …, Err(_) => … }`
abbrev pub attempt : {A : Type 0} → Exchange A → Exchange (Option A)
attempt (finish (ok a)) = finish (ok (some a))
attempt (finish (err e)) = finish (ok none)
attempt (finish panic) = finish panic
attempt (finish out_of_fuel) = finish out_of_fuel
attempt (call c k) = call c λ r. attempt (k r)

-- `query_async::<T>(…).await?`, with the conversion of the reply.
abbrev pub query : {A : Type 0} → (Reply → Run A) → Command → Exchange A
query read c = call c λ r. finish r >>= λ reply. finish (read reply)

abbrev pub as_unit : Reply → Run (Unit {0})
as_unit _ = ok tt

abbrev pub as_int : Reply → Run ℕ
as_int (int n) = ok n
as_int _ = err "Response was of incompatible type"

abbrev pub as_text : Reply → Run Text
as_text (bulk t) = ok t
as_text _ = err "Response was of incompatible type"

abbrev pub as_option : Reply → Run (Option Text)
as_option nil = ok none
as_option (bulk t) = ok (some t)
as_option _ = err "Response was of incompatible type"

abbrev pub as_texts : Reply → Run (List Text)
as_texts (array ts) = ok ts
as_texts nil = ok []
as_texts _ = err "Response was of incompatible type"

-- What the program sees of a reply: it never reads those to `DEL`, `EXPIRE`, `SADD`, `HDEL` and `HSET`,
-- `query_async::<()>`, but for their errors.
abbrev pub discarded : Run Reply → Run Reply
discarded (ok reply) = ok done
discarded (err e) = err e
discarded panic = panic
discarded out_of_fuel = out_of_fuel

abbrev pub seen : Command → Run Reply → Run Reply
seen (del_key k) r = discarded r
seen (expire k) r = discarded r
seen (sadd k t) r = discarded r
seen (hdel k field) r = discarded r
seen (hset k field t) r = discarded r
seen _ r = r

-- A whole exchange with a server.
abbrev pub run : {S A : Type 0} → Server S → Exchange A → Action S String A
run execute (finish r) s = (r, s)
run execute (call c k) s = run execute (k (seen c (execute c s).0)) (execute c s).1
