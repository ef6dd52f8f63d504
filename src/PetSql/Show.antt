-- ===== src/PetSql/Show.antt =====
-- TestSQL/testsql.c: it shows the table of pets. Its ConnectDB, FindData and CloseDB are, text for text,
-- those of MySQL_Test/TestSQL/testsql.c.
use network_code.Base.{ℕ, zero, suc, ◌≡◌, refl, true, Option, some, List, [], ◌++◌, codes}
use network_code.PetSql.{Mysql, Ran, ◌>>=◌, rows_text, heading, connect_db, find_data, closed}

module _ (m : Mysql) where
  -- `ConnectDB`, `FindData` of all columns, and `CloseDB`, which shows nothing.
  abbrev pub show_pets : m.Db → Ran m.Db
  show_pets db = connect_db m [] db >>= find_data m (codes "*")

  -- `main`: `none` if the process is lost, or its code, what it wrote, and the database.
  unfoldable pub show_pets_main : ℕ → List ℕ → m.Db → Option (ℕ × List ℕ × m.Db)
  show_pets_main argc name db = elim argc [
    | suc (suc (suc (suc (suc zero)))) ↦ closed m (show_pets db)
    | _ ↦ some (1, codes "Useage : " ++ (name ++ codes " [host] [user] [passwd] [db]\n"), db)
  ]

  -- If the connection is made, the query is accepted and its result can be read, the program ends with
  -- code 0 after it has written every row.
  pub show_pets_main-shows :
      (name text : List ℕ) (rows : List (List (Option (List ℕ)))) (db db' : m.Db)
      → m.connect ≡ true
      → m.query (codes "SELECT * from pet") db ≡ some db'
      → m.rows db' ≡ some rows
      → rows_text rows ≡ some text
      → show_pets_main 5 name db
        ≡ some (0, codes "MySQL connect success...\nSELECT * from pet\n" ++ (heading ++ text), db')
  unfolding show_pets_main connect_db find_data
  show_pets_main-shows name text rows db db' c q r t = rw (c, q, r, t) refl
