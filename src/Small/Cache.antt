-- ===== src/Small/Cache.antt =====
-- Test_memcached/test_mem.c: three values are stored in memcached and read back.
use network_code.Base.{arith, ℕ, ◌≡◌, refl, Option, none, some, List, [], ◌∷◌, ◌++◌, codes}

-- libmemcached with the server behind it, as a parameter: the reply to a set, and the value that a
-- get finds; `none` is any code but MEMCACHED_SUCCESS.
pub record Memcached : Type 1 where
  pub Db : Type 0
  pub set : List ℕ → List ℕ → Db → Option Db
  pub get : List ℕ → Db → Option (List ℕ)

-- What is documented where every command succeeds: the value just set is found.
pub record Answers (m : Memcached) : Type 0 where
  pub after_set : List ℕ → List ℕ → m.Db → m.Db
  pub set_succeeds : (k v : List ℕ) (db : m.Db) → m.set k v db ≡ some (after_set k v db)
  pub get_same : (k v : List ℕ) (db : m.Db) → m.get k (after_set k v db) ≡ some v

abbrev saved_line : List ℕ → List ℕ → List ℕ
saved_line k v = codes "save keys:" ++ (k ++ (codes ",value:" ++ (v ++ codes "\n")))

abbrev found_line : Option (List ℕ) → List ℕ
found_line none = []
found_line (some v) = codes "Get value:" ++ (v ++ codes "\n")

module _ (m : Memcached) where
  -- The loop: the keys and values left, the database, and what was written.
  unfoldable pub cache_loop : List (List ℕ × List ℕ) → m.Db → List ℕ → List ℕ × m.Db
  cache_loop [] db out = (out, db)
  cache_loop ((k, v) ∷ rest) db out = elim (m.set k v db) [
    | none ↦ cache_loop rest db (out ++ found_line (m.get k db))
    | some db' ↦ cache_loop rest db' ((out ++ saved_line k v) ++ found_line (m.get k db'))
  ]

  abbrev pub pairs : List (List ℕ × List ℕ)
  pairs =
      (codes "key1", codes "This is first value")
      ∷ (codes "key2", codes "This is second value")
      ∷ (codes "key3", codes "This is third value")
      ∷ []

  unfoldable pub cache_main : m.Db → List ℕ × m.Db
  cache_main db = cache_loop pairs db []

-- What is to be written: each value twice.
abbrev echoed : List (List ℕ × List ℕ) → List ℕ → List ℕ
echoed [] out = out
echoed ((k, v) ∷ rest) out = echoed rest ((out ++ saved_line k v) ++ found_line (some v))

-- Where every command succeeds each value is read back as it was stored.
cache_loop-echoes :
    (m : Memcached) (a : Answers m) (ps : List (List ℕ × List ℕ)) (db : m.Db) (out : List ℕ)
    → (cache_loop m ps db out).0 ≡ echoed ps out
unfolding cache_loop
cache_loop-echoes m a [] db out = refl
cache_loop-echoes m a ((k, v) ∷ rest) db out = ground (
  arith,
  a.set_succeeds k v db,
  a.get_same k v db,
  cache_loop-echoes m a rest (a.after_set k v db) ((out ++ saved_line k v) ++ found_line (some v)),
)
