-- ===== src/LinuxChat/Redis.antt =====
-- `class RedisApi` of LinuxChat/redis-lib/redis_api.cpp, over the library hiredis.
use network_code.Base.{ℕ, ◌≡◌, ◌≢◌, ℤ, pos, negsuc, Option, none, some, List, c_str}
use network_code.LinuxChat.Outcome.{Outcome, returned, ◌>>=◌, or_lost}

-- The connection of hiredis with the server behind it, as a parameter: the replies to the three
-- commands. `none` for a command is a null reply; a key without a value has the reply `some none`.
pub record Redis : Type 1 where
  pub Db : Type 0
  pub select : Db → Option Db
  pub set : List ℕ → List ℕ → Db → Option Db
  pub get : List ℕ → Db → Option (Option (List ℕ))

-- What redis documents of SET and GET, where every command is answered.
pub record Keeps (r : Redis) : Type 0 where
  pub select_stays : (db : r.Db) → r.select db ≡ some db
  pub after_set : List ℕ → List ℕ → r.Db → r.Db
  pub set_answers : (k v : List ℕ) (db : r.Db) → r.set k v db ≡ some (after_set k v db)
  pub get_same : (k v : List ℕ) (db : r.Db) → r.get k (after_set k v db) ≡ some (some v)
  pub get_other : (k j v : List ℕ) (db : r.Db) → k ≢ j → r.get j (after_set k v db) ≡ r.get j db

module _ (r : Redis) where
  abbrev inserted : r.Db → Option r.Db → ℤ × r.Db
  inserted db none = (negsuc 0, db)
  inserted db (some db') = (pos 0, db')

  -- `InsertDb`: both strings go through `c_str()`. A null reply to SET only gives -1.
  unfoldable pub insert_db : List ℕ → List ℕ → r.Db → Outcome (ℤ × r.Db)
  insert_db key value db =
      or_lost (r.select db) >>= λ db'. returned (inserted db' (r.set (c_str key) (c_str value) db'))

  -- `GetData`: `out = reply->str` through a null reply, or of a reply without a string, is lost.
  unfoldable pub get_value : List ℕ → r.Db → Outcome (List ℕ × r.Db)
  get_value key db = or_lost (r.select db) >>= λ db'. or_lost (r.get (c_str key) db') >>= λ reply.
      or_lost reply >>= λ out. returned (c_str out, db')
