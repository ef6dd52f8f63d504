-- ===== src/Weather/Race.antt =====
-- Two programs of weather_server/wwwroot/cgi/register.cpp at once on one redis.
pub mod Calls
pub mod Lost
pub mod Phases
use network_code.Base.{
  ℕ, ◌+◌, ◌^◌, ◌<◌, ◌≡◌, ◌≢◌, refl, sym, ap, ◌∙◌, ℤ, pos, true, some, List, [], ◌∷◌, ◌++◌, arith,
  length, codes, print_nat, atoi, length-append,
}
use network_code.Base.Decimal.{no_nul, print_nat-no_nul, atoi-print_nat_alone}
use network_code.Weather.Keys.{itoa-print_nat, count_key, user, user-no_nul, user-ne, count_key-ne}
use network_code.Weather.Register.{
  Redis, Keeps, Ran, gives, exits, lost, ◌>>=◌, itoa, user_key, insert_db, get_data, connect_redis,
  next_count, register,
}
use network_code.Weather.Count.{
  clean, clean-append, Listed, Listed-count, Listed-beyond, Registered, connects, get_data-known,
  insert_db-returns, user_zero_known,
}

-- Where a program stands, after the constructor of `_redis`: before it reads the counter, before it
-- stores the next number, before it stores the address, before it reads `user0`, and at its end.
pub data Stage : Type 0 where
  begins : List ℕ → Stage
  raises : List ℕ → List ℕ → List ℕ → Stage
  names : List ℕ → List ℕ → Stage
  reads : Stage
  finished : List ℕ → Stage

pub data Turn : Type 0 where
  one : Turn
  other : Turn

module _ (r : Redis) where
  -- A step is one call of `GetData` or `InsertDb`, with what the program computes after it. Only one of
  -- its two commands looks at the data.
  unfoldable pub advance : Stage → r.Db → Ran (Stage × r.Db)
  advance (begins email) db = get_data r (codes "UserCount") db >>= λ (out, db').
      itoa (atoi out) >>= λ count.
      itoa (next_count (atoi out)) >>= λ next. gives (raises email count next, db')
  advance (raises email count next) db =
      insert_db r (codes "UserCount") next db >>= λ (ret, db'). gives (names email count, db')
  advance (names email count) db =
      insert_db r (user_key count) email db >>= λ (ret, db'). gives (reads, db')
  advance reads db = get_data r (codes "user0") db >>= λ (out, db'). gives (finished out, db')
  advance (finished out) db = gives (finished out, db)

  -- The two programs by turns.
  unfoldable pub take_turns : List Turn → Stage → Stage → r.Db → Ran (Stage × Stage × r.Db)
  take_turns [] p q db = gives (p, q, db)
  take_turns (one ∷ ts) p q db = advance p db >>= λ (p', db'). take_turns ts p' q db'
  take_turns (other ∷ ts) p q db = advance q db >>= λ (q', db'). take_turns ts p q' db'

bind_assoc {ℓ κ μ} :
    {A : Type ℓ} {B : Type κ} {C : Type μ} (o : Ran A) (f : A → Ran B) (g : B → Ran C)
    → (o >>= f >>= g) ≡ (o >>= λ a. f a >>= g)
bind_assoc (gives a) f g = refl
bind_assoc (exits n) f g = refl
bind_assoc lost f g = refl

bind_same {ℓ κ} :
    {A : Type ℓ} {B : Type κ} (o : Ran A) {f g : A → Ran B}
    → ((a : A) → f a ≡ g a)
    → (o >>= f) ≡ (o >>= g)
bind_same (gives a) e = e a
bind_same (exits n) e = refl
bind_same lost e = refl

module _ (r : Redis) where
  open r use {Db}

  -- `exec_calc` after the two numbers are made.
  abbrev stores_both : List ℕ → List ℕ → List ℕ → Db → Ran (List ℕ × Db)
  stores_both email count next db = insert_db r (codes "UserCount") next db >>= λ (ret, db').
      insert_db r (user_key count) email db' >>= λ (ret', db''). get_data r (codes "user0") db''

  abbrev ending : Stage → List ℕ × Db → Ran (Stage × Stage × Db)
  ending q (out, db) = gives (finished out, q, db)

  one_left :
      (q : Stage) (db : Db)
      → take_turns r (one ∷ []) reads q db ≡ (get_data r (codes "user0") db >>= ending q)
  unfolding take_turns advance
  one_left q db = bind_assoc (get_data r (codes "user0") db) _ _

  two_left :
      (email count : List ℕ) (q : Stage) (db : Db)
      → take_turns r (one ∷ one ∷ []) (names email count) q db ≡ (
          (insert_db r (user_key count) email db >>= λ (ret, d). get_data r (codes "user0") d)
          >>= ending q)
  unfolding take_turns advance
  two_left email count q db =
      let o : Ran (ℤ × Db) = insert_db r (user_key count) email db in
      bind_assoc o _ _ ∙ bind_same o (λ x. one_left q x.1) ∙ sym (bind_assoc o _ _)

  three_left :
      (email count next : List ℕ) (q : Stage) (db : Db)
      → take_turns r (one ∷ one ∷ one ∷ []) (raises email count next) q db
        ≡ (stores_both email count next db >>= ending q)
  unfolding take_turns advance
  three_left email count next q db =
      let o : Ran (ℤ × Db) = insert_db r (codes "UserCount") next db in
      bind_assoc o _ _ ∙ bind_same o (λ x. two_left email count q x.1) ∙ sym (bind_assoc o _ _)

  -- `exec_calc` after the counter is read.
  abbrev counts : List ℕ → List ℕ × Db → Ran (List ℕ × Db)
  counts email (out, db) = itoa (atoi out) >>= λ count.
      itoa (next_count (atoi out)) >>= λ next. stores_both email count next db

  four_left :
      (email : List ℕ) (q : Stage) (db : Db)
      → take_turns r (one ∷ one ∷ one ∷ one ∷ []) (begins email) q db
        ≡ (get_data r (codes "UserCount") db >>= λ x. counts email x >>= ending q)
  unfolding take_turns advance
  four_left email q db =
      let o : Ran (List ℕ × Db) = get_data r (codes "UserCount") db in
      bind_assoc o _ _
      ∙ bind_same o λ x.
        bind_assoc (itoa (atoi x.0)) _ _
        ∙ bind_same (itoa (atoi x.0)) (λ count.
          bind_assoc (itoa (next_count (atoi x.0))) _ _
          ∙ bind_same (itoa (next_count (atoi x.0))) (λ next. three_left email count next q x.1)
          ∙ sym (bind_assoc (itoa (next_count (atoi x.0))) _ _))
        ∙ sym (bind_assoc (itoa (atoi x.0)) _ _)

  -- Four turns of one program, from its beginning, while the other does nothing: this is the whole of
  -- `exec_calc` after the constructor of `_redis`, errors included.
  pub four_turns-register :
      (email : List ℕ) (q : Stage) (db : Db)
      → (connect_redis r db >>= take_turns r (one ∷ one ∷ one ∷ one ∷ []) (begins email) q)
        ≡ (register r email db >>= λ (out, db'). gives (finished out, q, db'))
  unfolding register
  four_turns-register email q db =
      let o : Ran Db = connect_redis r db in
      bind_same o (four_left email q)
      ∙ sym (bind_assoc o _ _)
      ∙ sym (bind_assoc (o >>= get_data r (codes "UserCount")) (counts email) (ending q))
