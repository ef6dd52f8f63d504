-- ===== src/LinuxChat/System/Dangling.antt =====
-- The iterator of `broadCast` in LinuxChat/server/udpServer.cpp, while `RecvData` changes the map.
use network_code.Base.{
  ℕ, ◌≡◌, refl, sym, Bool, true, false, ◌&&◌, ◌==◌, ◌++◌, if◌then◌else◌, Option, none, some, List,
  [], ◌∷◌, arith,
}
use mathlib.Core.Path.{subst}
use network_code.Fifo.{Event}
use network_code.LinuxChat.Ring.{Message}
use network_code.LinuxChat.Redis.{Redis}
use network_code.LinuxChat.Server.{Json, Remote, quits, register}
use network_code.LinuxChat.Users.{Sorted, find_user, register-Sorted, find_user-register}
use network_code.LinuxChat.System.Save.{save-keeps}
use network_code.LinuxChat.System.{
  Consum, outside, holds, claims, took, sends, faulted, System, start, has_user, still, freed,
  begin, Step, misses, arrives, begins_put, stores, ends_put, loads, saves, load_next, load_done,
  looks, begins_get, takes, ends_get, sends_to, dangles, Run, here, next,
}

-- The addresses of the list.
abbrev pub has : ℕ → List ℕ → Bool
has a [] = false
has a (b ∷ bs) = if a == b then true else has a bs

-- If the flag is set then the element is in the map, and if not then the user has said QUIT.
abbrev InMap : List Remote → List ℕ → Remote → Bool → Type 0
InMap users quitted u alive =
    (alive ≡ true → find_user u.addr users ≡ some u) × (alive ≡ false → has u.addr quitted ≡ true)

abbrev pub Placed : List Remote → List ℕ → Consum → Type 0
Placed users quitted outside = Unit {0}
Placed users quitted (holds u alive) = InMap users quitted u alive
Placed users quitted (claims u alive) = InMap users quitted u alive
Placed users quitted (took u alive m) = InMap users quitted u alive
Placed users quitted (sends u alive m) = InMap users quitted u alive
Placed users quitted (faulted u m) = has u.addr quitted ≡ true

-- The address of a user that says QUIT.
abbrev pub quitter : Message → Remote → List ℕ
quitter cmd u = if quits cmd then u.addr ∷ [] else []

abbrev known : Option Remote → Bool
known none = false
known (some u) = true

has_user-find : (a : ℕ) (us : List Remote) → has_user a us ≡ known (find_user a us)
has_user-find a [] = refl
has_user-find a (u ∷ us) = ground (arith, has_user-find a us)

register-find :
    (cmd : Message) (u v : Remote) (users : List Remote)
    → Sorted users
    → find_user v.addr users ≡ some v
    → find_user v.addr (register cmd u users)
      ≡ (if quits cmd && (v.addr == u.addr) then none else some v)
register-find cmd u v users s e = ground (arith, e, find_user-register cmd u v.addr users s)

register-InMap :
    (cmd : Message) (u v : Remote) (users : List Remote) (quitted : List ℕ) (alive : Bool)
    → Sorted users
    → InMap users quitted v alive
    → InMap
        (register cmd u users)
        (quitter cmd u ++ quitted)
        v
        (still (register cmd u users) v alive)
register-InMap cmd u v users quitted true s h =
    let found = register-find cmd u v users s (h.0 refl) in
    let kept = has_user-find v.addr (register cmd u users) in
    (λ e. ground (arith, found, kept, e), λ e. ground (arith, found, kept, e))
register-InMap cmd u v users quitted false s h = (λ e. absurd (cc), λ e. ground (arith, h.1 refl))

Placed-freed :
    (cmd : Message) (u : Remote) (users : List Remote) (quitted : List ℕ) (c : Consum)
    → Sorted users
    → Placed users quitted c
    → Placed (register cmd u users) (quitter cmd u ++ quitted) (freed (register cmd u users) c)
Placed-freed cmd u users quitted outside s h = tt
Placed-freed cmd u users quitted (holds v alive) s h =
    register-InMap cmd u v users quitted alive s h
Placed-freed cmd u users quitted (claims v alive) s h =
    register-InMap cmd u v users quitted alive s h
Placed-freed cmd u users quitted (took v alive m) s h =
    register-InMap cmd u v users quitted alive s h
Placed-freed cmd u users quitted (sends v alive m) s h =
    register-InMap cmd u v users quitted alive s h
Placed-freed cmd u users quitted (faulted v m) s h = ground (arith, h)

Placed-begin : (users : List Remote) (quitted : List ℕ) → Placed users quitted (begin users)
Placed-begin [] quitted = tt
Placed-begin (u ∷ us) quitted = (λ e. ground arith, λ e. absurd (cc))

-- The map is sorted, and the iterator's element is in it unless the user has said QUIT.
abbrev pub Sound : {redis : Redis} → List ℕ → System redis → Type 0
Sound quitted s = Sorted s.server.userlist × Placed s.server.userlist quitted s.consum

-- The iterator is at a user of the map, and no freed element was read.
abbrev pub Present : List Remote → Consum → Type 0
Present users outside = Unit {0}
Present users (holds u alive) = find_user u.addr users ≡ some u
Present users (claims u alive) = find_user u.addr users ≡ some u
Present users (took u alive m) = find_user u.addr users ≡ some u
Present users (sends u alive m) = find_user u.addr users ≡ some u
Present users (faulted u m) = ⊥

InMap-present :
    (users : List Remote) (u : Remote) (alive : Bool)
    → InMap users [] u alive
    → find_user u.addr users ≡ some u
InMap-present users u true h = h.0 refl
InMap-present users u false h = let no = h.1 refl in absurd (cc)

Placed-Present : (users : List Remote) (c : Consum) → Placed users [] c → Present users c
Placed-Present users outside h = tt
Placed-Present users (holds u alive) h = InMap-present users u alive h
Placed-Present users (claims u alive) h = InMap-present users u alive h
Placed-Present users (took u alive m) h = InMap-present users u alive h
Placed-Present users (sends u alive m) h = InMap-present users u alive h
Placed-Present users (faulted u m) h = absurd (cc)

module _ {redis : Redis} {json : Json} where
  -- Who says QUIT in a step, before those of whom it is known.
  abbrev pub more_quitted :
      {s t : System redis} {e : Event Message} → Step json s e t → List ℕ → List ℕ
  more_quitted (arrives u b bytes {cmd = cmd} p r c) hs = quitter cmd u ++ hs
  more_quitted (misses p) hs = hs
  more_quitted (begins_put m k p r w) hs = hs
  more_quitted (stores m r) hs = hs
  more_quitted (ends_put k p r) hs = hs
  more_quitted (loads p f l) hs = hs
  more_quitted (saves p f l e) hs = hs
  more_quitted (load_next key keys p g) hs = hs
  more_quitted (load_done p) hs = hs
  more_quitted (looks c) hs = hs
  more_quitted (begins_get u alive c r w) hs = hs
  more_quitted (takes u alive c r) hs = hs
  more_quitted (ends_get u alive m c r) hs = hs
  more_quitted (sends_to u m ok c) hs = hs
  more_quitted (dangles u m c) hs = hs

  abbrev quitted_after :
      {s t : System redis} {es : List (Event Message)} → Run json s es t → List ℕ → List ℕ
  quitted_after (here s) hs = hs
  quitted_after (next st r) hs = quitted_after r (more_quitted st hs)

  -- The addresses from which a QUIT has come in a run, the last first.
  abbrev pub quitters : {s t : System redis} {es : List (Event Message)} → Run json s es t → List ℕ
  quitters r = quitted_after r []

  Step-Sound :
      {s t : System redis} {e : Event Message} (hs : List ℕ) (st : Step json s e t)
      → Sound hs s
      → Sound (more_quitted st hs) t
  Step-Sound hs (misses p) v = v
  Step-Sound {s} hs (arrives u b bytes {cmd = cmd} p r c) (o, h) = (
    register-Sorted cmd u s.server.userlist o,
    Placed-freed cmd u s.server.userlist hs s.consum o h,
  )
  Step-Sound hs (begins_put m k p r w) v = v
  Step-Sound hs (stores m r) v = v
  Step-Sound hs (ends_put k p r) v = v
  Step-Sound hs (loads p f l) v = v
  Step-Sound {s} hs (saves {v = w} {db} p f l e) v =
      subst (λ (us : List Remote). Sorted us × Placed us hs s.consum)
        (sym (save-keeps redis s.msg s.server w s.db db e).2) v
  Step-Sound hs (load_next key keys p g) v = v
  Step-Sound hs (load_done p) v = v
  Step-Sound {s} hs (looks c) (o, h) = (o, Placed-begin s.server.userlist hs)
  Step-Sound {s} hs (begins_get u alive c r w) (o, h) = (o, subst (Placed s.server.userlist hs) c h)
  Step-Sound {s} hs (takes u alive c r) (o, h) = (o, subst (Placed s.server.userlist hs) c h)
  Step-Sound {s} hs (ends_get u alive m c r) (o, h) = (o, subst (Placed s.server.userlist hs) c h)
  Step-Sound {s} hs (sends_to u m true c) (o, h) = (o, subst (Placed s.server.userlist hs) c h)
  Step-Sound hs (sends_to u m false c) (o, h) = (o, tt)
  Step-Sound {s} hs (dangles u m c) (o, h) = (o, (subst (Placed s.server.userlist hs) c h).1 refl)

  Run-Sound :
      {s t : System redis} {es : List (Event Message)} (hs : List ℕ) (r : Run json s es t)
      → Sound hs s
      → Sound (quitted_after r hs) t
  Run-Sound hs (here s) v = v
  Run-Sound hs (next st r) v = Run-Sound (more_quitted st hs) r (Step-Sound hs st v)

  -- However the two threads interleave, the map of users stays sorted without repetitions; the iterator
  -- of `broadCast` is at a user of the map for as long as its element was not freed; and its element was
  -- freed, or read by `sendto` after that, only if a QUIT has come from this user's address.
  pub iterator_holds :
      (slots : ℕ) (db : redis.Db) {t : System redis} {es : List (Event Message)}
      (r : Run json (start slots db) es t)
      → Sound (quitters r) t
  iterator_holds slots db r = Run-Sound [] r (tt, tt)

  -- In a run in which no datagram says QUIT, however the two threads interleave, the iterator of
  -- `broadCast` is always at a user of the map, and `sendto` never reads a freed element.
  pub none_quits-Present :
      (slots : ℕ) (db : redis.Db) {t : System redis} {es : List (Event Message)}
      (r : Run json (start slots db) es t)
      → quitters r ≡ []
      → Present t.server.userlist t.consum
  none_quits-Present slots db {t} r q = Placed-Present t.server.userlist t.consum (
      subst (λ (hs : List ℕ). Placed t.server.userlist hs t.consum) q (iterator_holds slots db r).1)
