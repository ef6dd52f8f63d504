-- ===== src/Weather/Race/Calls.antt =====
-- The steps of weather_server/wwwroot/cgi/register.cpp, one call of RedisApi each.
use network_code.Base.{ℕ, ◌+◌, ◌^◌, ◌<◌, ◌≡◌, refl, pos, true, some, List, arith, codes, print_nat}
use network_code.Base.Decimal.{no_nul, print_nat-no_nul, atoi-print_nat_alone}
use network_code.Weather.Keys.{itoa-print_nat, count_key, user, user-no_nul}
use network_code.Weather.Register.{Redis, Keeps, gives, next_count}
use network_code.Weather.Count.{get_data-known, insert_db-returns}
use network_code.Weather.Race.{begins, raises, names, reads, finished, advance}

module _ (r : Redis) (k : Keeps r) where
  open r use {Db}

  pub reads_count :
      (email : List ℕ) (n : ℕ) (db : Db)
      → n + 1 < 10 ^ 7
      → r.hget count_key db ≡ some (some (print_nat n))
      → advance r (begins email) db ≡ gives (raises email (print_nat n) (print_nat (n + 1)), db)
  unfolding advance
  reads_count email n db small e =
      let next : next_count (pos n) ≡ pos (n + 1) = ground arith in
      rw
        (
          get_data-known r k count_key (print_nat n) db refl (print_nat-no_nul n) e,
          atoi-print_nat_alone n (omega arith),
          itoa-print_nat n (omega arith),
          next,
          itoa-print_nat (n + 1) (omega arith),
        )
        refl

  pub stores_count :
      (email count : List ℕ) (n : ℕ) (db : Db)
      → advance r (raises email count (print_nat n)) db
        ≡ gives (names email count, k.after_hset count_key (print_nat n) db)
  unfolding advance
  stores_count email count n db =
      rw (insert_db-returns r k count_key (print_nat n) db refl (print_nat-no_nul n)) refl

  pub stores_email :
      (email : List ℕ) (n : ℕ) (db : Db)
      → no_nul email ≡ true
      → advance r (names email (print_nat n)) db ≡ gives (reads, k.after_hset (user n) email db)
  unfolding advance
  stores_email email n db c = rw (insert_db-returns r k (user n) email db (user-no_nul n) c) refl

  pub reads_back :
      (out : List ℕ) (db : Db)
      → no_nul out ≡ true
      → r.hget (codes "user0") db ≡ some (some out)
      → advance r reads db ≡ gives (finished out, db)
  unfolding advance
  reads_back out db c e = rw (get_data-known r k (codes "user0") out db refl c e) refl
