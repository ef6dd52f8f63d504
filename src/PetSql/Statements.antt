-- ===== src/PetSql/Statements.antt =====
-- The statements that MySQL_Test/TestSQL/testsql.c gives to MySQL.
use network_code.Base.{
  ℕ, ◌≡◌, refl, sym, ap, ◌∙◌, true, Option, none, some, List, [], ◌∷◌, ◌++◌, codes, arith,
}
use network_code.PetSql.{
  Mysql, Ran, goes_on, exits, faults, ◌>>=◌, rows_text, connect_db, accepted, insert_data,
  replace_data, found, find_data, pet, birth, closed, pet_main, heading,
}

-- A statement with the code of the exit if it is refused.
abbrev Statement : Type 0
Statement = List ℕ × ℕ

abbrev find_all : Statement
find_all = (codes "SELECT * from pet", 2)

abbrev insert_pet : Statement
insert_pet = (codes "INSERT INTO pet VALUES('lzk','NULL','Y','1996-10-01')", 1)

abbrev update_birth : Statement
update_birth = (codes "UPDATE pet SET birth='2017-03-24' WHERE name='HEHE'", 1)

abbrev pub statements : List Statement
statements = find_all ∷ insert_pet ∷ find_all ∷ update_birth ∷ find_all ∷ []

-- The statements in order until one is refused: the code and the database then.
abbrev pub give : {D : Type 0} → (List ℕ → D → Option D) → List Statement → D → ℕ × D
give query [] db = (0, db)
give query ((statement, code) ∷ rest) db = elim (query statement db) [
  | none ↦ (code, db)
  | some db' ↦ give query rest db'
]

-- Every result has rows, and no field of it is NULL.
abbrev pub Readable : Mysql → Type 0
Readable m =
    (db : m.Db)
    → (rows : List (List (Option (List ℕ)))) × (text : List ℕ) × (m.rows db ≡ some rows)
      × (rows_text rows ≡ some text)

-- How a call ended, without what it wrote.
abbrev pub end_of : {D : Type 0} → Option (ℕ × List ℕ × D) → Option (ℕ × D)
end_of none = none
end_of (some (n, out, db)) = some (n, db)

module _ (m : Mysql) where
  -- What follows a call gives the statements `rest`.
  abbrev Gives : (List ℕ → m.Db → Ran m.Db) → List Statement → Type 0
  Gives k rest =
      (out : List ℕ) (db : m.Db) → end_of (closed m (k out db)) ≡ some (give m.query rest db)

  after_query :
      (code : ℕ) (statement : List ℕ) (rest : List Statement) (k : List ℕ → m.Db → Ran m.Db)
      (shown out : List ℕ) (db : m.Db)
      → Gives k rest
      → end_of (closed m (accepted m code shown out db (m.query statement db) >>= k))
        ≡ some (give m.query ((statement, code) ∷ rest) db)
  after_query code statement rest k shown out db g = go (m.query statement db)
    where
      go :
          (o : Option m.Db)
          → end_of (closed m (accepted m code shown out db o >>= k))
            ≡ some (elim o [ none ↦ (code, db) | some db' ↦ give m.query rest db' ])
      go none = refl
      go (some db') = g (out ++ shown) db'

  find-Gives :
      (rest : List Statement) (k : List ℕ → m.Db → Ran m.Db)
      → Readable m
      → Gives k rest
      → Gives (λ out db. find_data m (codes "*") out db >>= k) (find_all ∷ rest)
  unfolding find_data
  find-Gives rest k read g out db = go (m.query (codes "SELECT * from pet") db)
    where
      go :
          (o : Option m.Db)
          → end_of (closed m (found m (out ++ codes "SELECT * from pet\n") db o >>= k))
            ≡ some (elim o [ none ↦ (2, db) | some db' ↦ give m.query rest db' ])
      go none = refl
      go (some db') =
          let (rows, text, e, f) = read db' in
          rw (e, f) (g ((out ++ codes "SELECT * from pet\n") ++ (heading ++ text)) db')

  insert-Gives :
      (rest : List Statement) (k : List ℕ → m.Db → Ran m.Db)
      → Gives k rest
      → Gives (λ out db. insert_data m pet out db >>= k) (insert_pet ∷ rest)
  unfolding insert_data
  insert-Gives rest k g out db =
      after_query 1 (codes "INSERT INTO pet VALUES('lzk','NULL','Y','1996-10-01')") rest k _ _ db g

  replace-Gives :
      (rest : List Statement) (k : List ℕ → m.Db → Ran m.Db)
      → Gives k rest
      → Gives (λ out db. replace_data m birth out db >>= k) (update_birth ∷ rest)
  unfolding replace_data
  replace-Gives rest k g out db =
      after_query 1 (codes "UPDATE pet SET birth='2017-03-24' WHERE name='HEHE'") rest k _ out db g

  then_goes_on : (r : Ran m.Db) → (r >>= goes_on) ≡ r
  then_goes_on (goes_on out db) = refl
  then_goes_on (exits n out db) = refl
  then_goes_on faults = refl

  last-Gives : Readable m → Gives (find_data m (codes "*")) (find_all ∷ [])
  last-Gives read out db =
      ap (λ (r : Ran m.Db). end_of (closed m r))
        (sym (then_goes_on (find_data m (codes "*") out db)))
      ∙ find-Gives [] goes_on read (λ out db. refl) out db

  connected :
      (out : List ℕ) (db : m.Db)
      → m.connect ≡ true
      → connect_db m out db ≡ goes_on (out ++ codes "MySQL connect success...\n") db
  unfolding connect_db
  connected out db c = ground (arith, c)

-- If the connection is made and every result can be read, the program gives its five statements in
-- order until one is refused: it then ends with the code for that statement, and with 0 if none is,
-- and it never faults.
main_gives_statements :
    (m : Mysql) (name : List ℕ) (db : m.Db)
    → m.connect ≡ true
    → Readable m
    → end_of (pet_main m 5 name db) ≡ some (give m.query statements db)
unfolding pet_main
main_gives_statements m name db c read =
    ap
      (λ (r : Ran m.Db). end_of (
        closed m (
          r >>= λ out db. find_data m (codes "*") out db >>= λ out db.
          insert_data m pet out db >>= λ out db. find_data m (codes "*") out db >>= λ out db.
          replace_data m birth out db >>= find_data m (codes "*"))))
      (connected m [] db c)
    ∙ find-Gives m (insert_pet ∷ find_all ∷ update_birth ∷ find_all ∷ []) _ read
        (insert-Gives m (find_all ∷ update_birth ∷ find_all ∷ []) _ (
          find-Gives m (update_birth ∷ find_all ∷ []) _ read
            (replace-Gives m (find_all ∷ []) _ (last-Gives m read))))
        _ db
