-- ===== src/StudentSql/Weather.antt =====
-- weather/testsql/cgi_sql.cpp and cgi_show.cpp, which differ from those of http/testsql in what they
-- write: the first shows the string of a GET request, and the second begins its page otherwise.
use network_code.Base.{
  ℕ, rounds, ◌≡◌, false, none, some, List, ◌++◌, ltb, if◌then◌else◌, codes, length, c_str, case_eq,
  atoi, arith,
}
use network_code.CgiAdd.{Outcome, ends, faults, getenv, read_data, post_array}
use network_code.StudentSql.Api.{Mysql}
use network_code.StudentSql.Forms.{
  page_ended, exec_add, exec_show, run_on, form_main, sql_start, sql_main,
}

-- `strcpy`, the line with the string, and `exec_add`.
abbrev pub query_shown : (my : Mysql) → List (List ℕ) → List ℕ → my.Db → Outcome × my.Db
query_shown my env q db =
    if ltb (length q) 1024
    then page_ended (
        exec_add my env (post_array q)
          (sql_start ++ (codes "QUERY_STRING:" ++ (c_str (post_array q) ++ codes "\n"))) db)
    else (faults, db)

-- `main` of cgi_sql.cpp.
unfoldable pub weather_sql_main :
    (my : Mysql) → List (List ℕ) → ℕ → List ℕ → my.Db → Outcome × my.Db
weather_sql_main my env ch input db = elim (getenv (codes "REQUEST_METHOD") env) [
  | none ↦ (ends 1 (sql_start ++ codes "<p>method error<br/>\n"), db)
  | some method ↦
      if case_eq (codes "GET") method
      then elim (getenv (codes "QUERY_STRING") env) [
        | none ↦ (faults, db)
        | some q ↦ query_shown my env q db
      ]
      else elim (getenv (codes "CONTENT_LENGTH") env) [
        | none ↦ (faults, db)
        | some v ↦ run_on (exec_add my) sql_start env (read_data (rounds (atoi v)) ch input) db
      ]
]

abbrev pub weather_show_start : List ℕ
weather_show_start = codes "<html/><br/>\n<body/><br/>"

-- `main` of cgi_show.cpp.
unfoldable pub weather_show_main :
    (my : Mysql) → List (List ℕ) → ℕ → List ℕ → my.Db → Outcome × my.Db
weather_show_main my = form_main weather_show_start (exec_show my)

-- A request with any method but GET is answered as by the program of http/testsql.
pub weather_sql_main-post :
    (my : Mysql) (env : List (List ℕ)) (ch : ℕ) (input method : List ℕ) (db : my.Db)
    → getenv (codes "REQUEST_METHOD") env ≡ some method
    → case_eq (codes "GET") method ≡ false
    → weather_sql_main my env ch input db ≡ sql_main my env ch input db
unfolding weather_sql_main sql_main form_main
weather_sql_main-post my env ch input method db e g = ground (arith, e, g)
