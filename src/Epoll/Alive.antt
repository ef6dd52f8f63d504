-- ===== src/Epoll/Alive.antt =====
-- No use of freed memory in epoll_server.c as long as no client leaves.
use network_code.Base.{
  ℕ, ◌-◌, ◌<◌, ◌≤◌, ◌≡◌, refl, sym, Bool, true, false, not, ◌&&◌, Option, none, some, List, [], ◌∷◌,
  ◌++◌, ◌==◌, if◌then◌else◌, arith, Bool-cases, inl, inr, set, length,
}
use mathlib.Core.Path.{subst}
use network_code.Epoll.{
  Epbuf, Events, Interest, Loop, Result, goes_on, exits, faults, update, Answer, on_accept, modify,
  redirect, on_bytes, on_read, handle, handle_at, with_client, accepted, after_read, page,
}
use network_code.Epoll.Main.{start}

-- The call of `read` does not find the end of the stream.
abbrev pub stays : Option (List ℕ) → Bool
stays none = true
stays (some []) = false
stays (some (c ∷ bytes)) = true

-- Every buffer made so far is there, and every pointer kept is to one of them.
pub record Alive (s : Loop) : Type 0 where
  pub buffers : (k : ℕ) → k < s.fresh → (b : Epbuf) × (s.heap k ≡ some b)
  pub shared : s.ev_ptr < s.fresh
  pub registered : (fd : ℕ) (i : Interest) → s.interest fd ≡ some i → i.ptr < s.fresh

-- A result without a fault; if it goes on then with all buffers, and at least `n` of them.
abbrev pub Fine : ℕ → Result → Type 0
Fine n (goes_on t) = Alive t × (n ≤ t.fresh)
Fine n (exits c) = Unit {0}
Fine n faults = ⊥

buffers_after :
    (heap : ℕ → Option Epbuf) (n p : ℕ) (b : Epbuf)
    → ((k : ℕ) → k < n → (c : Epbuf) × (heap k ≡ some c))
    → (k : ℕ) → k < n
    → (c : Epbuf) × (update heap p (some b) k ≡ some c)
buffers_after heap n p b live k h = elim (Bool-cases (k == p)) [
  | inl e ↦ (b, rw e refl)
  | inr e ↦ let (c, f) = live k h in (c, rw e f)
]

registered_after :
    (interest : ℕ → Option Interest) (n fd : ℕ) (new : Interest)
    → ((fd : ℕ) (i : Interest) → interest fd ≡ some i → i.ptr < n)
    → new.ptr < n
    → (k : ℕ) (i : Interest) → update interest fd (some new) k ≡ some i
    → i.ptr < n
registered_after interest n fd new old h k i e = ground (arith, old k i)

pub start-Alive : (listen_sock : ℕ) → Alive (start listen_sock)
start-Alive listen_sock = record {
  buffers = λ k h. (record { fd = listen_sock; buf = [] }, ground arith);
  shared = omega arith;
  registered = λ fd i e. ground arith;
}

modify-Fine :
    (a : Answer) (fd : ℕ) (ev : Events) (s : Loop) (o : Option Interest)
    → Alive s
    → Fine s.fresh (modify a fd ev s o)
modify-Fine a fd ev s none v = tt
modify-Fine a fd ev s (some old) v = elim (Bool-cases a.ctl) [
  | inr e ↦ rw e tt
  | inl e ↦ rw e (
    record {
      buffers = v.buffers;
      shared = v.shared;
      registered = registered_after s.interest s.fresh fd _ v.registered v.shared;
    },
    omega arith,
  )
]

redirect-Fine :
    (a : Answer) (fd : ℕ) (ev : Events) (s : Loop)
    → Alive s
    → Fine s.fresh (redirect a fd ev s (s.heap s.ev_ptr))
redirect-Fine a fd ev s v =
    let (b, e) = v.buffers s.ev_ptr v.shared in
    subst (λ (o : Option Epbuf). Fine s.fresh (redirect a fd ev s o)) (sym e)
      (modify-Fine a fd ev
        (record s { heap = update s.heap s.ev_ptr (some (record b { fd = fd })) }) (s.interest fd)
        (record {
          buffers = buffers_after s.heap s.fresh s.ev_ptr _ v.buffers;
          shared = v.shared;
          registered = v.registered;
        }))

on_bytes-Fine :
    (a : Answer) (ptr fd : ℕ) (ev : Events) (bytes : List ℕ) (b : Epbuf) (s : Loop)
    → Alive s
    → Fine s.fresh (on_bytes a ptr fd ev bytes b s)
unfolding on_bytes
on_bytes-Fine a ptr fd ev bytes b s v =
    redirect-Fine a fd ev
      (record s {
        heap = update s.heap ptr (some (record b { buf = set bytes (length bytes - 1) 0 }));
      })
      (record {
        buffers = buffers_after s.heap s.fresh ptr _ v.buffers;
        shared = v.shared;
        registered = v.registered;
      })

-- With a new buffer for a client.
accepted-Alive : (confd : ℕ) (s : Loop) → Alive s → Alive (with_client confd s)
accepted-Alive confd s v = record {
  buffers = λ k h. elim (Bool-cases (k == s.fresh)) [
    | inl e ↦ (record { fd = confd; buf = [] }, rw e refl)
    | inr e ↦ let (c, f) = v.buffers k (ground arith) in (c, rw e f)
  ];
  shared = omega arith;
  registered = λ fd i e. ground (arith, v.registered fd i);
}

accepted-Fine : (ctl : Bool) (s : Loop) (o : Option ℕ) → Alive s → Fine s.fresh (accepted ctl s o)
accepted-Fine ctl s none v = (v, omega arith)
accepted-Fine false s (some confd) v = tt
accepted-Fine true s (some confd) v = (accepted-Alive confd s v, omega arith)

after_read-Fine :
    (a : Answer) (ptr : ℕ) (ev : Events) (b : Epbuf) (s : Loop) (o : Option (List ℕ))
    → Alive s
    → stays o ≡ true
    → Fine s.fresh (after_read a ptr ev b s o)
after_read-Fine a ptr ev b s none v h = (v, omega arith)
after_read-Fine a ptr ev b s (some []) v h = absurd (ground arith)
after_read-Fine a ptr ev b s (some (c ∷ bytes)) v h = on_bytes-Fine a ptr b.fd ev (c ∷ bytes) b s v

if-Fine : (t : Bool) (n : ℕ) (r q : Result) → Fine n r → Fine n q → Fine n (if t then r else q)
if-Fine true n r q x y = x
if-Fine false n r q x y = y

-- One event at a buffer that was made.
pub handle-Fine :
    (a : Answer) (ptr : ℕ) (ev : Events) (s : Loop)
    → Alive s
    → ptr < s.fresh
    → stays a.read ≡ true
    → Fine s.fresh (handle a ptr ev s)
unfolding handle on_accept on_read
handle-Fine a ptr ev s v h st =
    let (b, e) = v.buffers ptr h in
    let written : Alive (record s { sent = s.sent ++ ((b.fd, page) ∷ []) }) = record {
      buffers = v.buffers;
      shared = v.shared;
      registered = v.registered;
    } in
    subst (λ (o : Option Epbuf). Fine s.fresh (handle_at a ptr ev s o)) (sym e)
      (if-Fine ((b.fd == s.listen_sock) && ev.readable) s.fresh _ _
        (accepted-Fine a.ctl s a.accept v)
        (if-Fine (not (b.fd == s.listen_sock) && ev.readable) s.fresh _ _
          (after_read-Fine a ptr ev b s a.read v st)
          (if-Fine (not (b.fd == s.listen_sock) && ev.writable) s.fresh _ _ (written, omega arith)
            (v, omega arith))))
