-- ===== src/PetSql.antt =====
-- MySQL_Test/TestSQL/testsql.c: statements on a table of pets.
pub mod Statements
pub mod Show
use network_code.Base.{
  ℕ, zero, suc, ◌≡◌, Bool, true, false, not, Option, none, some, List, [], ◌∷◌, ◌++◌, ltb,
  if◌then◌else◌, codes, length,
}

-- The client library of MySQL and the database behind it, as a parameter: whether
-- `mysql_real_connect` succeeds, the database after a query that is accepted, and the rows that
-- `mysql_store_result` then gives, each with as many fields as `mysql_num_fields`; `none` for a null
-- result, and for a field that is NULL.
pub record Mysql : Type 1 where
  pub Db : Type 0
  pub connect : Bool
  pub query : List ℕ → Db → Option Db
  pub rows : Db → Option (List (List (Option (List ℕ))))

-- A call returns with what the process has written so far and the database, or it ends the process:
-- with a code, or by an access that is not allowed.
pub data Ran (D : Type 0) : Type 0 where
  goes_on : List ℕ → D → Ran D
  exits : ℕ → List ℕ → D → Ran D
  faults : Ran D

infixl 5 ◌>>=◌
abbrev pub ◌>>=◌ : {D : Type 0} → Ran D → (List ℕ → D → Ran D) → Ran D
goes_on out db >>= f = f out db
exits n out db >>= f = exits n out db
faults >>= f = faults

-- The fields of a row, and the rows. A field that is NULL is a null pointer.
unfoldable pub row_text : List (Option (List ℕ)) → Option (List ℕ)
row_text [] = some (codes "\n")
row_text (none ∷ fields) = none
row_text (some v ∷ fields) = elim (row_text fields) [
  | none ↦ none
  | some rest ↦ some (v ++ (codes "\t" ++ rest))
]

unfoldable pub rows_text : List (List (Option (List ℕ))) → Option (List ℕ)
rows_text [] = some []
rows_text (row ∷ rows) = elim (row_text row) [
  | none ↦ none
  | some text ↦ elim (rows_text rows) [ none ↦ none | some rest ↦ some (text ++ rest) ]
]

-- `"%5s\t%s\t,%15s\t\n"` of the three column names.
abbrev pub heading : List ℕ
heading = codes "|name|\tsex|\t,         birth|\t\n"

-- The array `buf` of 1024 bytes that each function fills.
abbrev pub fits : List ℕ → Bool
fits statement = ltb (length statement) 1024

abbrev pub pet : List ℕ
pet = codes "('lzk','NULL','Y','1996-10-01')"

abbrev pub birth : List ℕ
birth = codes "birth='2017-03-24' WHERE name='HEHE'"

module _ (m : Mysql) where
  unfoldable pub connect_db : List ℕ → m.Db → Ran m.Db
  connect_db out db =
      if m.connect then goes_on (out ++ codes "MySQL connect success...\n") db else exits 1 out db

  -- After a query: `shown` if it was accepted, or an exit.
  abbrev pub accepted : ℕ → List ℕ → List ℕ → m.Db → Option m.Db → Ran m.Db
  accepted code shown out db none = exits code out db
  accepted code shown out db (some db') = goes_on (out ++ shown) db'

  -- A function that gives one statement to MySQL, where `echo` says whether it is printed first.
  abbrev pub perform : List ℕ → Bool → List ℕ → List ℕ → m.Db → Ran m.Db
  perform statement echo shown out db =
      if not (fits statement)
      then faults
      else accepted 1 shown (if echo then out ++ (statement ++ codes "\n") else out) db
          (m.query statement db)

  unfoldable pub insert_data : List ℕ → List ℕ → m.Db → Ran m.Db
  insert_data msg =
      perform (codes "INSERT INTO pet VALUES" ++ msg) true (codes "Insert Data into db success\n")

  unfoldable pub delete_data : List ℕ → List ℕ → m.Db → Ran m.Db
  delete_data msg = perform (codes "DELETE FROM pet WHERE " ++ msg) false (codes "Delete Success\n")

  unfoldable pub replace_data : List ℕ → List ℕ → m.Db → Ran m.Db
  replace_data msg = perform (codes "UPDATE pet SET " ++ msg) false (codes "Replace data success\n")

  abbrev pub shows : List ℕ → m.Db → Option (List ℕ) → Ran m.Db
  shows out db none = faults
  shows out db (some text) = goes_on (out ++ (heading ++ text)) db

  abbrev pub stored : List ℕ → m.Db → Option (List (List (Option (List ℕ)))) → Ran m.Db
  stored out db none = exits 3 out db
  stored out db (some rows) = shows out db (rows_text rows)

  abbrev pub found : List ℕ → m.Db → Option m.Db → Ran m.Db
  found out db none = exits 2 out db
  found out db (some db') = stored out db' (m.rows db')

  unfoldable pub find_data : List ℕ → List ℕ → m.Db → Ran m.Db
  find_data msg out db =
      let statement = codes "SELECT " ++ (msg ++ codes " from pet") in
      if not (fits statement)
      then faults
      else found (out ++ (statement ++ codes "\n")) db (m.query statement db)

  abbrev pub run : m.Db → Ran m.Db
  run db = connect_db [] db >>= λ out db. find_data (codes "*") out db >>= λ out db.
      insert_data pet out db >>= λ out db.
      find_data (codes "*") out db >>= λ out db. replace_data birth out db >>= find_data (codes "*")

  -- `main`: `none` if the process is lost, or its code, what it wrote, and the database.
  abbrev pub closed : Ran m.Db → Option (ℕ × List ℕ × m.Db)
  closed faults = none
  closed (exits n out db) = some (n, out, db)
  closed (goes_on out db) = some (0, out, db)

  unfoldable pub pet_main : ℕ → List ℕ → m.Db → Option (ℕ × List ℕ × m.Db)
  pet_main argc name db = elim argc [
    | suc (suc (suc (suc (suc zero)))) ↦ closed (run db)
    | _ ↦ some (1, codes "Useage : " ++ (name ++ codes " [host] [user] [passwd] [db]\n"), db)
  ]
