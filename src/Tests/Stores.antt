-- ===== src/Tests/Stores.antt =====
-- The programs that keep data in MySQL or redis, and the epoll server, at concrete inputs.
use network_code.Base.{
  ℕ, ◌≡◌, ◌≢◌, refl, true, false, Option, none, some, List, [], ◌∷◌, codes, length, arith, pos,
  str_eq, print_nat, print_fuel, if◌then◌else◌, Bool-cases, ◌⊎◌, inl, inr,
}
use network_code.Base.Strings.{str_eq_refl, str_eq-same}
use network_code.Httpd.Cgi.{cgi_env}
use network_code.StudentSql.Api.{Mysql, insert_statement}
use network_code.StudentSql.Forms.{sql_main, page_ended}
use network_code.StudentSql.Insert.{Field, form, inserted, post_inserts}
use network_code.Weather.Register.{Redis, Keeps, gives}
use network_code.Weather.Keys.{user, user-ne, count_key-ne}
use network_code.Weather.Race.{Turn, one, other, begins, finished, take_turns}
use network_code.Weather.Race.Lost.{both_read-loses}
use network_code.Weather.Count.{register_all, Registered, register_all-Registered}
use network_code.Epoll.{Events, faults}
use network_code.Epoll.Main.{Waited, ready, epoll_main}
use network_code.Epoll.Stay.{epoll_main-ne-faults}

-- A database that takes every statement, and is the list of them.
abbrev students : Mysql
students = record {
  Db = List (List ℕ);
  init = true;
  connect = true;
  query = λ q db. some (q ∷ db);
  rows = λ q db. none;
}

abbrev bo : Field
bo = record { key = codes "v1"; value = codes "Bo" }

abbrev male : Field
male = record { key = codes "v2"; value = codes "m" }

abbrev computing : Field
computing = record { key = codes "v3"; value = codes "CS" }

post_inserts_example :
    sql_main students
      (cgi_env (codes "POST") [] (pos (length (form bo male computing))))
      0
      (form bo male computing)
      []
    ≡ page_ended (
        inserted students bo male computing []
          (some (insert_statement (codes "Bo") (codes "m") (codes "CS") ∷ [])))
post_inserts_example =
    post_inserts students (codes "POST") [] bo male computing 0 [] refl (refl, refl) (refl, refl)
      (refl, refl) (omega arith) (omega arith)

-- A store of keys and values; the newest value of a key counts.
abbrev Entries : Type 0
Entries = List (List ℕ × List ℕ)

abbrev lookup : List ℕ → Entries → Option (List ℕ)
lookup k [] = none
lookup k ((j, v) ∷ es) = if str_eq j k then some v else lookup k es

abbrev users : Redis
users = record {
  Db = Entries;
  connect = true;
  select = λ db. some db;
  hset = λ k v db. some ((k, v) ∷ db);
  hget = λ k db. some (lookup k db);
}

users-Keeps : Keeps users
users-Keeps = record {
  connects = refl;
  select_stays = λ db. refl;
  after_hset = λ k v db. (k, v) ∷ db;
  hset_answers = λ k v db. refl;
  hget_same = λ k v db. rw (str_eq_refl k) refl;
  hget_other = λ k j v db ne. elim (Bool-cases (str_eq k j)) [
    | inl e ↦ absurd (ne (str_eq-same k j e))
    | inr e ↦ rw e refl
  ];
}

register_all-Registered_example :
    (db' : Entries) × (register_all users (codes "a@b" ∷ []) ((codes "UserCount", codes "0") ∷ [])
      ≡ gives (tt, db'))
    × Registered users users-Keeps db' (codes "a@b" ∷ [])
register_all-Registered_example =
    register_all-Registered users users-Keeps (codes "a@b" ∷ [])
      ((codes "UserCount", codes "0") ∷ []) refl (omega arith) refl

abbrev readable : Events
readable = record { readable = true; writable = false; edge = false }

-- A client connects, and then sends two bytes.
abbrev visit : List Waited
visit =
    ready (
      record {
        fd = 3;
        events = readable;
        answer = record { accept = some 4; read = none; ctl = true };
      }
      ∷ [])
    ∷ ready (
        record {
          fd = 4;
          events = readable;
          answer = record { accept = none; read = some (codes "hi"); ctl = true };
        }
        ∷ [])
    ∷ []

epoll_main-ne-faults_example : epoll_main 3 3 true true visit ≢ faults
epoll_main-ne-faults_example = epoll_main-ne-faults 3 3 true true visit refl

-- One user has registered.
abbrev one_user : Entries
one_user = (codes "UserCount", codes "1") ∷ (codes "user0", codes "z@z") ∷ []

one_user-Registered : Registered users users-Keeps one_user (codes "z@z" ∷ [])
unfolding print_nat print_fuel
one_user-Registered = record { count = refl; listed = (refl, tt) }

-- The second program is done before the first goes on.
abbrev overtaken : List Turn
overtaken = other ∷ other ∷ other ∷ one ∷ one ∷ one ∷ []

both_read-loses_example :
    (out : List ℕ) × (out' : List ℕ) × (db' : Entries) × (v : List ℕ) × (take_turns users
        (one ∷ other ∷ overtaken)
        (begins (codes "a@b"))
        (begins (codes "c@d"))
        one_user
      ≡ gives (finished out, finished out', db'))
    × ((v ≡ codes "a@b") ⊎ (v ≡ codes "c@d"))
    × Registered users users-Keeps db' (codes "z@z" ∷ v ∷ [])
    × (users.hget (user 0) db' ≡ users.hget (user 0) one_user)
both_read-loses_example =
    both_read-loses users users-Keeps (codes "a@b") (codes "c@d") (codes "z@z" ∷ []) one_user
      (user 0) overtaken refl refl refl (omega arith) one_user-Registered (count_key-ne 0)
      (user-ne 1 0 (omega arith) (omega arith) (omega arith)) (omega arith) (omega arith)
