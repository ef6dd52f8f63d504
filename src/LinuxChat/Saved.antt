-- ===== src/LinuxChat/Saved.antt =====
-- The messages that LinuxChat/server stores in redis, and the LOAD of udpServerMain.cpp.
use network_code.Base.{
  ℕ, zero, suc, ◌+◌, ◌%◌, ◌^◌, ◌<◌, ◌≤◌, ◌≡◌, ◌≢◌, refl, sym, ap, ap₂, ◌∙◌, Bool, true, Option,
  none, some, List, [], ◌∷◌, ◌++◌, arith, c_str, length, length-append, print_nat, ◌&&◌,
  append_assoc, append-nil, atoi,
}
use mathlib.Core.Path.{subst}
use network_code.Base.Decimal.{no_nul, c_str-no_nul, print_nat-no_nul, atoi-print_nat_alone}
use network_code.LinuxChat.Ring.{Message, Pool, put_data}
use network_code.LinuxChat.Outcome.{Outcome, returned, ◌>>=◌, or_waits}
use network_code.LinuxChat.Redis.{Redis, Keeps, insert_db, get_value}
use network_code.LinuxChat.Server.{UdpServer, session_key, key_max, save, load}

-- Every message into the ring, in order.
unfoldable pub put_all : List Message → UdpServer → Outcome UdpServer
put_all [] s = returned s
put_all (m ∷ ms) s = or_waits (put_data m s.pool) >>= λ pool. put_all ms (record s { pool = pool })

abbrev clean : List Message → Bool
clean [] = true
clean (m ∷ ms) = no_nul m && clean ms

-- `n` keys from the `i`-th on.
abbrev keys_from : ℕ → ℕ → List Message
keys_from i zero = []
keys_from i (suc n) = session_key i ∷ keys_from (i + 1) n

keys_from-append : (i n : ℕ) → keys_from i (suc n) ≡ keys_from i n ++ (session_key (i + n) ∷ [])
keys_from-append i zero = ground arith
keys_from-append i (suc n) =
    ap (λ (l : List Message). session_key i ∷ l)
      (keys_from-append (i + 1) n
        ∙ ap (λ (k : ℕ). keys_from (i + 1) n ++ (session_key k ∷ [])) (omega arith))

session_key-ne : (a b : ℕ) → a < 2 ^ 31 → b < 2 ^ 31 → a ≢ b → session_key a ≢ session_key b
session_key-ne a b ha hb ne e =
    let same : print_nat a ≡ print_nat b = cc in
    ne (cc (atoi-print_nat_alone a ha, atoi-print_nat_alone b hb, ap atoi same))

c_str-session_key : (n : ℕ) → c_str (session_key n) ≡ session_key n
c_str-session_key n = c_str-no_nul (session_key n) (print_nat-no_nul n)

clean-append :
    (ms : List Message) (m : Message)
    → clean ms ≡ true
    → no_nul m ≡ true
    → clean (ms ++ (m ∷ [])) ≡ true
clean-append [] m h k = rw k refl
clean-append (x ∷ ms) m h k = ground (arith, clean-append ms m)

-- The messages saved one after the other.
unfoldable pub save_all :
    (redis : Redis) → List Message → UdpServer → redis.Db → Outcome (UdpServer × redis.Db)
save_all redis [] s db = returned (s, db)
save_all redis (m ∷ ms) s db = save redis m s db >>= λ (s', db'). save_all redis ms s' db'

abbrev pub beside : {A B : Type 0} → B → A → Outcome (A × B)
beside b a = returned (a, b)

module _ (redis : Redis) (k : Keeps redis) where
  open redis use {Db}

  -- The messages stand under the keys from the `i`-th on.
  abbrev Stored : Db → ℕ → List Message → Type 0
  Stored db i [] = Unit {0}
  Stored db i (m ∷ ms) = (redis.get (session_key i) db ≡ some (some m)) × Stored db (i + 1) ms

  Stored-set_beyond :
      (db : Db) (i : ℕ) (ms : List Message) (j : ℕ) (v : Message)
      → i + length ms ≤ j
      → j < 2 ^ 31
      → Stored db i ms
      → Stored (k.after_set (session_key j) v db) i ms
  Stored-set_beyond db i [] j v h small st = tt
  Stored-set_beyond db i (m ∷ ms) j v h small (e, st) = (
    k.get_other (session_key j) (session_key i) v db
          (session_key-ne j i small (omega arith) (omega arith))
        ∙ e,
    Stored-set_beyond db (i + 1) ms j v (omega arith) small st,
  )

  Stored-set :
      (db : Db) (i : ℕ) (ms : List Message) (j : ℕ) (v : Message)
      → i + length ms ≡ j
      → j < 2 ^ 31
      → Stored db i ms
      → Stored (k.after_set (session_key j) v db) i (ms ++ (v ∷ []))
  Stored-set db i [] j v h small st =
      (let same : i ≡ j = omega arith in rw same (k.get_same (session_key j) v db), tt)
  Stored-set db i (m ∷ ms) j v h small (e, st) = (
    k.get_other (session_key j) (session_key i) v db
          (session_key-ne j i small (omega arith) (omega arith))
        ∙ e,
    Stored-set db (i + 1) ms j v (omega arith) small st,
  )

  -- The keys and the store after the messages were saved.
  record Saved (s : UdpServer) (db : Db) (ms : List Message) : Type 0 where
    count : s.session_count ≡ length ms % 512
    keys : s.session ≡ keys_from 0 (length ms)
    stored : Stored db 0 ms

  abbrev pub after_save : Message → UdpServer → UdpServer
  after_save m s = record s {
    session_count = (s.session_count + 1) % key_max;
    session = s.session ++ (session_key s.session_count ∷ []);
  }

  pub save-returns :
      (m : Message) (s : UdpServer) (db : Db)
      → no_nul m ≡ true
      → save redis m s db
        ≡ returned (after_save m s, k.after_set (session_key s.session_count) m db)
  unfolding save insert_db
  save-returns m s db h = ground (
    arith,
    k.select_stays db,
    c_str-session_key s.session_count,
    c_str-no_nul m h,
    k.set_answers (session_key s.session_count) m db,
  )

  save-Saved :
      (m : Message) (s : UdpServer) (db : Db) (ms : List Message)
      → length ms < 512
      → Saved s db ms
      → Saved (after_save m s) (k.after_set (session_key s.session_count) m db) (ms ++ (m ∷ []))
  save-Saved m s db ms lt v =
      let here : s.session_count ≡ length ms = omega (arith, v.count) in
      record {
        count = omega (arith, v.count, length-append ms (m ∷ []));
        keys =
            ap₂ (λ (l : List Message) (n : ℕ). l ++ (session_key n ∷ [])) v.keys here
            ∙ sym (
                keys_from-append 0 (length ms)
                ∙ ap (λ (n : ℕ). keys_from 0 (length ms) ++ (session_key n ∷ [])) (omega arith))
            ∙ ap (keys_from 0) {x = suc (length ms)} (omega (arith, length-append ms (m ∷ [])));
        stored = Stored-set db 0 ms s.session_count m (omega arith) (omega arith) v.stored;
      }

  save_all-Saved :
      (ms before : List Message) (s : UdpServer) (db : Db)
      → clean ms ≡ true
      → length before + length ms ≤ 512
      → Saved s db before
      → (s' : UdpServer) × (db' : Db) × (save_all redis ms s db ≡ returned (s', db'))
        × Saved s' db' (before ++ ms)
        × (s'.pool ≡ s.pool)
  unfolding save_all
  save_all-Saved [] before s db c le v =
      (s, db, refl, subst (Saved s db) (sym (append-nil before)) v, refl)
  save_all-Saved (m ∷ ms) before s db c le v =
      let m_clean : no_nul m ≡ true = ground arith in
      let ms_clean : clean ms ≡ true = ground arith in
      let (s', db', e, w, p) =
        save_all-Saved ms (before ++ (m ∷ [])) (after_save m s)
          (k.after_set (session_key s.session_count) m db) ms_clean
          (omega (arith, length-append before (m ∷ [])))
          (save-Saved m s db before (omega arith) v) in
      (
        s',
        db',
        rw (save-returns m s db m_clean) e,
        subst (Saved s' db') (append_assoc before (m ∷ []) ms) w,
        p,
      )

  get_value-stored :
      (i : ℕ) (m : Message) (db : Db)
      → no_nul m ≡ true
      → redis.get (session_key i) db ≡ some (some m)
      → get_value redis (session_key i) db ≡ returned (m, db)
  unfolding get_value
  get_value-stored i m db h e =
      ground (arith, k.select_stays db, c_str-session_key i, c_str-no_nul m h)

  after_put :
      (m : Message) (ms : List Message) (i : ℕ) (s : UdpServer) (db : Db) (o : Option Pool)
      → ((t : UdpServer) → load redis (keys_from i (length ms)) t db ≡ (put_all ms t >>= beside db))
      → (or_waits o >>= λ pool. load redis (keys_from i (length ms)) (record s { pool = pool }) db)
        ≡ ((or_waits o >>= λ pool. put_all ms (record s { pool = pool })) >>= beside db)
  after_put m ms i s db none ih = refl
  after_put m ms i s db (some pool) ih = ih (record s { pool = pool })

  load-stored :
      (ms : List Message) (i : ℕ) (s : UdpServer) (db : Db)
      → clean ms ≡ true
      → Stored db i ms
      → load redis (keys_from i (length ms)) s db ≡ (put_all ms s >>= beside db)
  unfolding load put_all
  load-stored [] i s db c st = refl
  load-stored (m ∷ ms) i s db c (e, st) = rw (get_value-stored i m db (ground arith) e) (
      after_put m ms (i + 1) s db (put_data m s.pool)
        λ t. load-stored ms (i + 1) t db (ground arith) st)

-- At most 512 messages without NUL, saved one after the other by a new session, are all stored, and
-- LOAD then puts exactly these messages into the ring, in order, whether there is room for them or it
-- waits in between.
pub load-save_all :
    (redis : Redis) (k : Keeps redis) (ms : List Message) (s : UdpServer) (db : redis.Db)
    → clean ms ≡ true
    → length ms ≤ 512
    → s.session_count ≡ 0
    → s.session ≡ []
    → (s' : UdpServer) × (db' : redis.Db) × (save_all redis ms s db ≡ returned (s', db'))
      × (s'.pool ≡ s.pool)
      × (load redis s'.session s' db' ≡ (put_all ms s' >>= beside db'))
load-save_all redis k ms s db c le count session =
    let (s', db', e, v, p) =
      save_all-Saved redis k ms [] s db c (omega arith)
        (record { count = count; keys = session; stored = tt }) in
    (
      s',
      db',
      e,
      p,
      ap (λ (keys : List Message). load redis keys s' db') v.keys
          ∙ load-stored redis k ms 0 s' db' c v.stored,
    )
