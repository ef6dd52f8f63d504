-- ===== src/Weather/Register.antt =====
-- The registration of weather_server/wwwroot/cgi/register.cpp: a form of a name and an address is stored
-- in redis. What the calls write to the page is left out.
use network_code.Base.{
  ℕ, ◌+◌, ◌%◌, ◌^◌, ◌≡◌, ℤ, pos, negsuc, rounds, signed32, pattern32, Bool, true, Option, none,
  some, List, [], ◌∷◌, ◌++◌, ltb, if◌then◌else◌, codes, length, c_str, case_eq, atoi, print_int,
}
use network_code.CgiAdd.{getenv, read_data, post_array}
use network_code.StudentSql.Forms.{split_form}

-- The connection of hiredis with the server behind it, as a parameter: whether it is made, and the
-- replies to `select 1`, `HSET user k v` and `HGET user k`. `none` for a command is a null reply; a key
-- without a value has the reply `some none`.
pub record Redis : Type 1 where
  pub Db : Type 0
  pub connect : Bool
  pub select : Db → Option Db
  pub hset : List ℕ → List ℕ → Db → Option Db
  pub hget : List ℕ → Db → Option (Option (List ℕ))

-- What redis documents of the two commands, where every one is answered.
pub record Keeps (r : Redis) : Type 0 where
  pub connects : r.connect ≡ true
  pub select_stays : (db : r.Db) → r.select db ≡ some db
  pub after_hset : List ℕ → List ℕ → r.Db → r.Db
  pub hset_answers : (k v : List ℕ) (db : r.Db) → r.hset k v db ≡ some (after_hset k v db)
  pub hget_same : (k v : List ℕ) (db : r.Db) → r.hget k (after_hset k v db) ≡ some (some v)
  pub hget_other :
      (k j v : List ℕ) (db : r.Db) → (k ≡ j → ⊥) → r.hget j (after_hset k v db) ≡ r.hget j db

-- A call returns, the process exits with a code, or it is lost: by a failed `assert` or an access that
-- is not allowed.
pub data Ran {ℓ} (A : Type ℓ) : Type ℓ where
  gives : A → Ran A
  exits : ℕ → Ran A
  lost : Ran A

infixl 5 ◌>>=◌
abbrev pub ◌>>=◌ {ℓ κ} : {A : Type ℓ} {B : Type κ} → Ran A → (A → Ran B) → Ran B
gives a >>= f = f a
exits n >>= f = exits n
lost >>= f = lost

abbrev pub or_lost {ℓ} : {A : Type ℓ} → Option A → Ran A
or_lost none = lost
or_lost (some a) = gives a

-- `_itoa`: `sprintf` into 8 bytes.
unfoldable pub itoa : ℤ → Ran (List ℕ)
itoa num = let s = print_int num in if ltb (length s) 8 then gives s else lost

abbrev pub user_key : List ℕ → List ℕ
user_key count = codes "user" ++ count

-- `count++`
abbrev pub next_count : ℤ → ℤ
next_count count = signed32 ((pattern32 count + 1) % 2 ^ 32)

module _ (r : Redis) where
  -- The constructor of `RedisApi`.
  unfoldable pub connect_redis : r.Db → Ran r.Db
  connect_redis db = if r.connect then gives db else exits 1

  -- A null reply only gives -1.
  abbrev pub inserted : r.Db → Option r.Db → ℤ × r.Db
  inserted db none = (negsuc 0, db)
  inserted db (some db') = (pos 0, db')

  unfoldable pub insert_db : List ℕ → List ℕ → r.Db → Ran (ℤ × r.Db)
  insert_db key value db =
      or_lost (r.select db) >>= λ db'. gives (inserted db' (r.hset (c_str key) (c_str value) db'))

  unfoldable pub get_data : List ℕ → r.Db → Ran (List ℕ × r.Db)
  get_data key db = or_lost (r.select db) >>= λ db'.
      or_lost (r.hget (c_str key) db') >>= λ reply. or_lost reply >>= λ out. gives (c_str out, db')

  -- From the constructor of `_redis` on, with the second value of the form.
  unfoldable pub register : List ℕ → r.Db → Ran (List ℕ × r.Db)
  register email db = connect_redis db >>= get_data (codes "UserCount") >>= λ (out, db1).
      itoa (atoi out) >>= λ count. itoa (next_count (atoi out)) >>= λ next.
      insert_db (codes "UserCount") next db1 >>= λ (ret, db2).
      insert_db (user_key count) email db2 >>= λ (ret', db3). get_data (codes "user0") db3

  -- `data[1]`; the array has ten elements, and a pointer that was not set is lost.
  abbrev pub second : List (List ℕ) → r.Db → Ran (List ℕ × r.Db)
  second (name ∷ email ∷ more) db = if ltb 8 (length more) then lost else register (c_str email) db
  second ptrs db = lost

  abbrev pub register_known : List ℕ → r.Db → Option (List ℕ) → Ran (List ℕ × r.Db)
  register_known arg db none = lost
  register_known arg db (some v) = second (split_form arg).1 db

  abbrev pub register_string : List (List ℕ) → r.Db → List ℕ → Ran (List ℕ × r.Db)
  register_string env db [] = exits 1
  register_string env db (c ∷ s) = register_known (c ∷ s) db (getenv (codes "CONTENT_LENGTH") env)

  -- `exec_calc`: what is read back at the end, and the database.
  unfoldable pub exec_calc : List (List ℕ) → List ℕ → r.Db → Ran (List ℕ × r.Db)
  exec_calc env arg db = register_string env db (c_str arg)

  abbrev pub calc_on : List (List ℕ) → r.Db → List ℕ → Ran (List ℕ × r.Db)
  calc_on env db s = if ltb (length s) 1024 then exec_calc env (post_array s) db else lost

  abbrev pub on_query : List (List ℕ) → r.Db → Option (List ℕ) → Ran (List ℕ × r.Db)
  on_query env db none = lost
  on_query env db (some q) = calc_on env db q

  abbrev pub on_body : List (List ℕ) → ℕ → List ℕ → r.Db → Option (List ℕ) → Ran (List ℕ × r.Db)
  on_body env ch input db none = lost
  on_body env ch input db (some v) = calc_on env db (read_data (rounds (atoi v)) ch input)

  -- `main`; `gives` is an end with the code 0.
  unfoldable pub register_main : List (List ℕ) → ℕ → List ℕ → r.Db → Ran (List ℕ × r.Db)
  register_main env ch input db = elim (getenv (codes "REQUEST_METHOD") env) [
    | none ↦ exits 1
    | some method ↦
        if case_eq (codes "GET") method
        then on_query env db (getenv (codes "QUERY_STRING") env)
        else on_body env ch input db (getenv (codes "CONTENT_LENGTH") env)
  ]
