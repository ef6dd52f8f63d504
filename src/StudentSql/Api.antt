-- ===== src/StudentSql/Api.antt =====
-- `class mysql` of http/testsql/sql_api.cpp. Each method returns what it writes to standard output;
-- what goes to standard error is left out.
use network_code.Base.{
  ℕ, Bool, not, Option, none, some, List, [], ◌∷◌, ◌++◌, ltb, if◌then◌else◌, codes, length,
}

-- MySQL and its client library, as a parameter: whether `mysql_init` and `mysql_real_connect`
-- succeed, what a statement makes of the data, or `none` if it is refused, as where no connection
-- was made, and what `mysql_store_result` and `mysql_fetch_row` give after it: the rows, each with
-- its fields, where `none` is an SQL NULL.
pub record Mysql : Type 1 where
  pub Db : Type 0
  pub init : Bool
  pub connect : Bool
  pub query : List ℕ → Db → Option Db
  pub rows : List ℕ → Db → Option (List (List (Option (List ℕ))))

-- The text written, an exit with a code, or an access that is not allowed.
pub data Written : Type 0 where
  writes : List ℕ → Written
  exits : ℕ → List ℕ → Written
  faults : Written

abbrev pub init_text : Mysql → List ℕ
init_text my =
    (if my.init then [] else codes "<h3>Init failed</h3><br/>\n") ++ codes "Init Success\n"

abbrev pub connect_text : Mysql → List ℕ
connect_text my =
    if my.connect
    then codes "<h3>connect sql success</h3><br/>\n"
    else codes "<h3>connect sql failed</h3><br/>\n"

abbrev pub close_text : List ℕ
close_text = codes "<h3>sqldb link is closed</h3><br/>\n"

-- What `sprintf` puts into `buf`, an array of 1024 bytes.
abbrev pub values_text : List ℕ → List ℕ → List ℕ → List ℕ
values_text name sex major =
    codes "('" ++ (name ++ (codes "','" ++ (sex ++ (codes "','" ++ (major ++ codes "',NOW())")))))

abbrev pub insert_statement : List ℕ → List ℕ → List ℕ → List ℕ
insert_statement name sex major =
    codes "INSERT INTO stu_info(name,sex,major,create_time) values" ++ values_text name sex major

-- The first line of `Insert`.
abbrev pub insert_text : List ℕ → List ℕ → List ℕ → List ℕ
insert_text name sex major = codes "Insert data:" ++ (insert_statement name sex major ++ (10 ∷ []))

-- A statement that is refused leaves the data as they are.
unfoldable pub insert : (my : Mysql) → List ℕ → List ℕ → List ℕ → my.Db → Written × my.Db
insert my name sex major db =
    if not (ltb (length (values_text name sex major)) 1024)
    then (faults, db)
    else elim (my.query (insert_statement name sex major) db) [
      | none ↦ (writes (insert_text name sex major), db)
      | some db' ↦
          (writes (insert_text name sex major ++ codes "<h1>Insert success</h1><br/>\n"), db')
    ]

abbrev pub select_statement : List ℕ
select_statement = codes "select * from stu_info"

-- The fields of a row, each with a tab; a NULL field is a null pointer.
unfoldable pub row_text : List (Option (List ℕ)) → Option (List ℕ)
row_text [] = some (codes "\n<br/>")
row_text (none ∷ fields) = none
row_text (some v ∷ fields) = elim (row_text fields) [
  | none ↦ none
  | some rest ↦ some (codes "<h3>" ++ (v ++ (codes "\t</h3>" ++ rest)))
]

unfoldable pub rows_text : List (List (Option (List ℕ))) → Option (List ℕ)
rows_text [] = some []
rows_text (row ∷ rows) = elim (row_text row) [
  | none ↦ none
  | some text ↦ elim (rows_text rows) [ none ↦ none | some rest ↦ some (text ++ rest) ]
]

-- `"%2s\t%5s\t%s\t%6s\t%15s\n"` of the five column names.
abbrev pub heading_text : List ℕ
heading_text = codes "id\t name\tsex\t major\t    create_time\n"

abbrev pub rows_written : Option (List ℕ) → Written
rows_written none = faults
rows_written (some text) = writes (heading_text ++ text)

unfoldable pub select : (my : Mysql) → my.Db → Written × my.Db
unfolding rows_text row_text
select my db = elim (my.query select_statement db) [
  | none ↦ (exits 1 (codes "Select failed\n"), db)
  | some db' ↦ elim (my.rows select_statement db') [
    | none ↦ (exits 2 [], db')
    | some rows ↦ (rows_written (rows_text rows), db')
  ]
]
