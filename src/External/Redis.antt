-- ===== src/External/Redis.antt =====
-- The crate `brz-redis`: the commands that the gateway sends to the writer, and the replies.
use http_gateway.Prelude.{
  ℕ, ◌+◌, ◌<◌, ◌≤◌, String, ◌≡◌, Bool, ◌&&◌, not, List, Option, none, some, is_some, str_eq,
  if◌then◌else◌,
}

-- A Lua script of the gateway, sent by EVAL with one key, a token, and a time to live where it is
-- given (as decimal text).
pub data Script : Type 0 where
  complete renew : Script

pub data Command : Type 0 where
  get : (key : String) → Command
  hget : (key field : String) → Command
  set_nx_px : (key value : String) (ttl_ms : ℕ) → Command
  hincrby : (key field : String) (amount : ℕ) → Command
  eval : Script → (key token : String) → (ttl_ms : Option ℕ) → Command

-- `brz_redis::Value`, as far as the gateway tells replies apart; `negative n` is the integer
-- -(n + 1).
pub data Value : Type 0 where
  nil okay : Value
  int negative : ℕ → Value
  bulk_string : List ℕ → Value
  simple_string : String → Value
  other : Value

-- A reply, or the failure of the client.
pub data Reply : Type 0 where
  reply : Value → Reply
  failed : Reply

-- The key space of the writer. `read` sees what is alive at a time: a value and the end of its life.
pub record Writer : Type 1 where
  pub Store : Type 0
  pub read : Store → (now : ℕ) → (key : String) → Option (String × ℕ)
  -- SET key value NX PX ttl, and whether it was set; DEL; PEXPIRE.
  pub set_nx_px : Store → (now : ℕ) → (key value : String) → (ttl : ℕ) → Bool × Store
  pub del : Store → (now : ℕ) → (key : String) → Store
  pub pexpire : Store → (now : ℕ) → (key : String) → (ttl : ℕ) → Store
  -- Documented: a value stays until its time is over; SET NX sets a key that is absent, and no other;
  -- DEL removes a key; PEXPIRE gives a key that is present a new time. A time to live is positive.
  pub read-later :
      (s : Store) (now later : ℕ) (key value : String) (end : ℕ)
      → read s now key ≡ some (value, end)
      → now ≤ later
      → later < end
      → read s later key ≡ some (value, end)
  pub set_nx_px_lem :
      (s : Store) (now : ℕ) (key value : String) (ttl : ℕ)
      → 0 < ttl
      → (set_nx_px s now key value ttl).0 ≡ not (is_some (read s now key))
  pub read-set_nx_px :
      (s : Store) (now : ℕ) (key value : String) (ttl : ℕ) (k : String)
      → 0 < ttl
      → read (set_nx_px s now key value ttl).1 now k ≡ (
          if str_eq key k && not (is_some (read s now key))
          then some (value, now + ttl)
          else read s now k)
  pub read-del :
      (s : Store) (now : ℕ) (key k : String)
      → read (del s now key) now k ≡ (if str_eq key k then none else read s now k)
  pub read-pexpire :
      (s : Store) (now : ℕ) (key value : String) (end ttl : ℕ) (k : String)
      → 0 < ttl
      → read s now key ≡ some (value, end)
      → read (pexpire s now key ttl) now k
        ≡ (if str_eq key k then some (value, now + ttl) else read s now k)
