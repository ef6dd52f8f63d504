-- ===== src/Weather/Count.antt =====
-- What weather_server/wwwroot/cgi/register.cpp has stored after a number of registrations.
use network_code.Base.{
  ℕ, ◌+◌, ◌^◌, ◌<◌, ◌≡◌, refl, sym, ap, ◌∙◌, pos, Bool, true, some, List, [], ◌∷◌, ◌++◌, arith,
  length, codes, print_nat, print_fuel, ◌&&◌, length-append, append_assoc, append-nil,
}
use mathlib.Core.Path.{subst}
use network_code.Base.Decimal.{no_nul, c_str-no_nul, print_nat-no_nul, atoi-print_nat_alone}
use network_code.Weather.Keys.{itoa-print_nat, count_key, user, user-no_nul, user-ne, count_key-ne}
use network_code.Weather.Register.{
  Redis, Keeps, Ran, gives, ◌>>=◌, insert_db, get_data, connect_redis, next_count, register,
}

abbrev pub clean : List (List ℕ) → Bool
clean [] = true
clean (m ∷ ms) = no_nul m && clean ms

-- The registrations of these addresses, one after the other.
unfoldable pub register_all : (r : Redis) → List (List ℕ) → r.Db → Ran (Unit {0} × r.Db)
register_all r [] db = gives (tt, db)
register_all r (email ∷ emails) db = register r email db >>= λ (out, db'). register_all r emails db'

pub clean-append :
    (ms : List (List ℕ)) (m : List ℕ)
    → clean ms ≡ true
    → no_nul m ≡ true
    → clean (ms ++ (m ∷ [])) ≡ true
clean-append [] m h k = rw k refl
clean-append (x ∷ ms) m h k = ground (arith, clean-append ms m)

module _ (r : Redis) (k : Keeps r) where
  open r use {Db}

  -- The addresses stand under the users from the `i`-th on.
  abbrev pub Listed : Db → ℕ → List (List ℕ) → Type 0
  Listed db i [] = Unit {0}
  Listed db i (m ∷ ms) = (r.hget (user i) db ≡ some (some m)) × Listed db (i + 1) ms

  pub Listed-count :
      (db : Db) (i : ℕ) (ms : List (List ℕ)) (v : List ℕ)
      → Listed db i ms
      → Listed (k.after_hset count_key v db) i ms
  Listed-count db i [] v l = tt
  Listed-count db i (m ∷ ms) v (e, l) =
      (k.hget_other count_key (user i) v db (count_key-ne i) ∙ e, Listed-count db (i + 1) ms v l)

  pub Listed-beyond :
      (db : Db) (i : ℕ) (ms : List (List ℕ)) (j : ℕ) (v : List ℕ)
      → i + length ms ≡ j
      → j < 2 ^ 31
      → Listed db i ms
      → Listed (k.after_hset (user j) v db) i (ms ++ (v ∷ []))
  Listed-beyond db i [] j v h small l =
      (let same : i ≡ j = omega arith in rw same (k.hget_same (user j) v db), tt)
  Listed-beyond db i (m ∷ ms) j v h small (e, l) = (
    k.hget_other (user j) (user i) v db (user-ne j i small (omega arith) (omega arith)) ∙ e,
    Listed-beyond db (i + 1) ms j v (omega arith) small l,
  )

  -- The counter and the addresses after these registrations.
  pub record Registered (db : Db) (ms : List (List ℕ)) : Type 0 where
    pub count : r.hget count_key db ≡ some (some (print_nat (length ms)))
    pub listed : Listed db 0 ms

  abbrev after_register : List ℕ → ℕ → Db → Db
  after_register email n db =
      k.after_hset (user n) email (k.after_hset count_key (print_nat (n + 1)) db)

  after_register-Registered :
      (db : Db) (ms : List (List ℕ)) (email : List ℕ)
      → length ms < 10 ^ 7
      → Registered db ms
      → Registered (after_register email (length ms) db) (ms ++ (email ∷ []))
  after_register-Registered db ms email small v = record {
    count =
        k.hget_other (user (length ms)) count_key email _ (λ e. count_key-ne (length ms) (sym e))
        ∙ k.hget_same count_key (print_nat (length ms + 1)) db
        ∙ ap (λ (n : ℕ). some (some (print_nat n))) {x = length ms + 1}
            (omega (arith, length-append ms (email ∷ [])));
    listed =
        Listed-beyond (k.after_hset count_key (print_nat (length ms + 1)) db) 0 ms (length ms) email
          (omega arith) (omega arith) (Listed-count db 0 ms (print_nat (length ms + 1)) v.listed);
  }

  pub connects : (db : Db) → connect_redis r db ≡ gives db
  unfolding connect_redis
  connects db = ground (arith, k.connects)

  pub get_data-known :
      (key v : List ℕ) (db : Db)
      → no_nul key ≡ true
      → no_nul v ≡ true
      → r.hget key db ≡ some (some v)
      → get_data r key db ≡ gives (v, db)
  unfolding get_data
  get_data-known key v db c d e =
      ground (arith, k.select_stays db, c_str-no_nul key c, c_str-no_nul v d)

  pub insert_db-returns :
      (key v : List ℕ) (db : Db)
      → no_nul key ≡ true
      → no_nul v ≡ true
      → insert_db r key v db ≡ gives (pos 0, k.after_hset key v db)
  unfolding insert_db
  insert_db-returns key v db c d =
      ground
        (arith, k.select_stays db, c_str-no_nul key c, c_str-no_nul v d, k.hset_answers key v db)

  pub user_zero_known :
      (ms : List (List ℕ)) (email : List ℕ) (db : Db)
      → clean ms ≡ true
      → no_nul email ≡ true
      → Listed db 0 (ms ++ (email ∷ []))
      → (m : List ℕ) × (no_nul m ≡ true) × (r.hget (codes "user0") db ≡ some (some m))
  unfolding print_nat print_fuel
  user_zero_known [] email db c d (e, l) = (email, d, e)
  user_zero_known (m ∷ ms) email db c d (e, l) = (m, ground arith, e)

  register-returns :
      (email : List ℕ) (db : Db) (ms : List (List ℕ))
      → clean ms ≡ true
      → no_nul email ≡ true
      → length ms + 1 < 10 ^ 7
      → Registered db ms
      → (out : List ℕ) × (register r email db ≡ gives (out, after_register email (length ms) db))
  unfolding register
  register-returns email db ms c d small v =
      let n : ℕ = length ms in
      let v' = after_register-Registered db ms email (omega arith) v in
      let (out, o, e) = user_zero_known ms email (after_register email n db) c d v'.listed in
      let next : next_count (pos n) ≡ pos (n + 1) = ground arith in
      (
        out,
        rw
            (
              connects db,
              get_data-known count_key (print_nat n) db refl (print_nat-no_nul n) v.count,
              atoi-print_nat_alone n (omega arith),
              itoa-print_nat n (omega arith),
              next,
              itoa-print_nat (n + 1) (omega arith),
              insert_db-returns count_key (print_nat (n + 1)) db refl (print_nat-no_nul (n + 1)),
              insert_db-returns (user n) email (k.after_hset count_key (print_nat (n + 1)) db)
                  (user-no_nul n) d,
            )
            (get_data-known (codes "user0") out (after_register email n db) refl o e),
      )

  register_all-from :
      (emails before : List (List ℕ)) (db : Db)
      → clean before ≡ true
      → clean emails ≡ true
      → length before + length emails < 10 ^ 7
      → Registered db before
      → (db' : Db) × (register_all r emails db ≡ gives (tt, db'))
        × Registered db' (before ++ emails)
  unfolding register_all
  register_all-from [] before db c d small v =
      (db, refl, subst (Registered db) (sym (append-nil before)) v)
  register_all-from (email ∷ emails) before db c d small v =
      let email_clean : no_nul email ≡ true = ground arith in
      let emails_clean : clean emails ≡ true = ground arith in
      let (out, e) = register-returns email db before c email_clean (omega arith) v in
      let (db', f, w) =
        register_all-from emails (before ++ (email ∷ [])) (after_register email (length before) db)
          (clean-append before email c email_clean) emails_clean
          (omega (arith, length-append before (email ∷ [])))
          (after_register-Registered db before email (omega arith) v) in
      (db', rw e f, subst (Registered db') (append_assoc before (email ∷ []) emails) w)

  -- Fewer than ten million registrations of addresses without NUL, from a store whose counter is 0,
  -- all succeed, and then the counter is their number and every address stands under its own user, in
  -- order.
  pub register_all-Registered :
      (emails : List (List ℕ)) (db : Db)
      → clean emails ≡ true
      → length emails < 10 ^ 7
      → r.hget (codes "UserCount") db ≡ some (some (codes "0"))
      → (db' : Db) × (register_all r emails db ≡ gives (tt, db')) × Registered db' emails
  unfolding print_nat print_fuel
  register_all-Registered emails db c small e =
      register_all-from emails [] db refl c (omega arith) (record { count = e; listed = tt })
