-- ===== src/StudentSql/Forms.antt =====
-- http/testsql/cgi_sql.cpp and cgi_show.cpp.
use network_code.Base.{
  ℕ, rounds, Option, none, some, List, [], ◌∷◌, ◌++◌, ltb, ◌==◌, if◌then◌else◌, codes, length,
  c_str, case_eq, atoi, print_int,
}
use network_code.CgiAdd.{Outcome, ends, faults, getenv, read_data, post_array, page_end}
use network_code.StudentSql.Api.{
  Mysql, Written, writes, exits, init_text, connect_text, close_text, insert, select,
}

-- The loop of `exec_add`: the string when it is done, in which a NUL stands for every '&', and the
-- pointers in `data`, each as the rest of that string.
unfoldable pub split_form : List ℕ → List ℕ × List (List ℕ)
split_form [] = ([], [])
split_form (c ∷ s) =
    let (arr, ptrs) = split_form s in
    if c == b'='
    then (c ∷ arr, arr ∷ ptrs)
    else if c == b'&'
    then (0 ∷ arr, ptrs)
    else (c ∷ arr, ptrs)

-- `out` is what was written before.
abbrev pub then_close {ℓ} : {D : Type ℓ} → List ℕ → Written × D → Outcome × D
then_close out (writes text, db) = (ends 0 (out ++ (text ++ close_text)), db)
then_close out (exits n text, db) = (ends n (out ++ text), db)
then_close out (Written.faults, db) = (faults, db)

-- `sql.Connect(); sql.Insert(data[0],data[1],data[2])`: a pointer that was not set is a fault.
unfoldable pub add_row : (my : Mysql) → List ℕ → List (List ℕ) → my.Db → Outcome × my.Db
add_row my out (name ∷ sex ∷ major ∷ more) db =
    then_close (out ++ (init_text my ++ connect_text my))
      (insert my (c_str name) (c_str sex) (c_str major) db)
add_row my out ptrs db = (faults, db)

-- `data` has ten elements.
abbrev pub add_split : (my : Mysql) → List ℕ → List ℕ × List (List ℕ) → my.Db → Outcome × my.Db
add_split my out (arr, ptrs) db =
    if ltb 10 (length ptrs) then (faults, db) else add_row my out ptrs db

abbrev pub add_known : (my : Mysql) → List ℕ → List ℕ → my.Db → Option (List ℕ) → Outcome × my.Db
add_known my arg out db none = (faults, db)
add_known my arg out db (some v) =
    add_split my
      (out
        ++ (codes "<p>length="
            ++ (print_int (atoi v) ++ (codes ",arg=" ++ (arg ++ codes "\n<br/>")))))
      (split_form arg) db

abbrev pub add_string : (my : Mysql) → List (List ℕ) → List ℕ → my.Db → List ℕ → Outcome × my.Db
add_string my env out db [] = (ends 1 (out ++ codes "<p>not cgi arg<br/>\n"), db)
add_string my env out db (c ∷ s) = add_known my (c ∷ s) out db (getenv (codes "CONTENT_LENGTH") env)

-- What a program does with its environment, the string of the request, what is written before, and the
-- data.
abbrev pub Body : Type 0 → Type 0
Body D = List (List ℕ) → List ℕ → List ℕ → D → Outcome × D

unfoldable pub exec_add : (my : Mysql) → Body my.Db
exec_add my env arg out db = add_string my env out db (c_str arg)

-- `exec_show`; its test `arg==NULL && *arg=='\0'` never holds.
unfoldable pub exec_show : (my : Mysql) → Body my.Db
exec_show my env arg out db =
    then_close
      (out
        ++ (codes "<h1>"
            ++ (c_str arg
                ++ (codes "</h1><br/>\n<h1>Show DataBase</h1><br/>\n"
                    ++ (init_text my ++ connect_text my)))))
      (select my db)

-- The last line of `main`, which writes the end of the page.
abbrev pub page_ended {ℓ} : {D : Type ℓ} → Outcome × D → Outcome × D
page_ended (o, db) = (page_end o, db)

-- `strcpy(post_data, …)`, or the loop that reads it, into 1024 bytes.
abbrev pub run_on : {D : Type 0} → Body D → List ℕ → List (List ℕ) → List ℕ → D → Outcome × D
run_on body start env s db =
    if ltb (length s) 1024 then page_ended (body env (post_array s) start db) else (faults, db)

-- The `main` that the two programs share but for its first lines and the function it calls.
unfoldable pub form_main :
    {D : Type 0} → List ℕ → Body D → List (List ℕ) → ℕ → List ℕ → D → Outcome × D
form_main start body env ch input db = elim (getenv (codes "REQUEST_METHOD") env) [
  | none ↦ (ends 1 (start ++ codes "<p>method error<br/>\n"), db)
  | some method ↦
      if case_eq (codes "GET") method
      then elim (getenv (codes "QUERY_STRING") env) [
        | none ↦ (faults, db)
        | some q ↦ run_on body start env q db
      ]
      else elim (getenv (codes "CONTENT_LENGTH") env) [
        | none ↦ (faults, db)
        | some v ↦ run_on body start env (read_data (rounds (atoi v)) ch input) db
      ]
]

abbrev pub sql_start : List ℕ
sql_start = codes "<html><br/>\n<body background=\"./pika.jpg\"><br/>"

unfoldable pub sql_main : (my : Mysql) → List (List ℕ) → ℕ → List ℕ → my.Db → Outcome × my.Db
sql_main my = form_main sql_start (exec_add my)

abbrev show_start : List ℕ
show_start = codes "<html><br/>\n<body><br/>"

unfoldable pub show_main : (my : Mysql) → List (List ℕ) → ℕ → List ℕ → my.Db → Outcome × my.Db
show_main my = form_main show_start (exec_show my)
