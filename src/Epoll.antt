-- ===== src/Epoll.antt =====
-- epoll_server.c: the event loop, with the buffers that it registers on an explicit heap.
pub mod Sharing
pub mod Main
pub mod Alive
pub mod Stay
use network_code.Base.{
  ℕ, zero, suc, ◌+◌, ◌-◌, ◌≡◌, Bool, true, false, not, ◌&&◌, Option, none, some, List, [], ◌∷◌,
  ◌++◌, ◌==◌, if◌then◌else◌, codes, length, set,
}

-- `epbuf_t`, with the bytes read into `buf` so far.
pub record Epbuf : Type 0 where
  pub fd : ℕ
  pub buf : List ℕ

-- EPOLLIN, EPOLLOUT and EPOLLET of a mask.
pub record Events : Type 0 where
  pub readable : Bool
  pub writable : Bool
  pub edge : Bool

-- What is registered with the kernel for a descriptor.
pub record Interest : Type 0 where
  pub ptr : ℕ
  pub events : Events

-- `ev_ptr` is `ev.data.ptr`. The kernel's interest list is a function of the descriptor. A freed
-- buffer is `none`; every allocation gets a block of its own.
pub record Loop : Type 0 where
  pub listen_sock : ℕ
  pub heap : ℕ → Option Epbuf
  pub fresh : ℕ
  pub interest : ℕ → Option Interest
  pub ev_ptr : ℕ
  pub sent : List (ℕ × List ℕ)
  pub closed : List ℕ

-- The loop goes on, or the process ends with a code; a use of freed memory is a fault.
pub data Result : Type 0 where
  goes_on : Loop → Result
  exits : ℕ → Result
  faults : Result

module _ {ℓ} {A : Type ℓ} where
  abbrev pub update : (ℕ → A) → ℕ → A → ℕ → A
  update f i a j = if j == i then a else f j

-- What the system calls give in one round: `accept`; `read`, `none` for an error; and whether
-- `epoll_ctl` succeeds beyond the kernel's own rule that EPOLL_CTL_MOD wants a registered descriptor.
pub record Answer : Type 0 where
  pub accept : Option ℕ
  pub read : Option (List ℕ)
  pub ctl : Bool

-- `Allocate`, `ev.data.ptr`, and the registration of the new client.
abbrev pub with_client : ℕ → Loop → Loop
with_client confd s = record s {
  heap = update s.heap s.fresh (some (record { fd = confd; buf = [] }));
  fresh = s.fresh + 1;
  ev_ptr = s.fresh;
  interest = update s.interest confd (
      some (record {
        ptr = s.fresh;
        events = record { readable = true; writable = false; edge = true };
      }));
}

abbrev pub accepted : Bool → Loop → Option ℕ → Result
accepted ctl s none = goes_on s
accepted ctl s (some confd) = if not ctl then exits 6 else goes_on (with_client confd s)

-- With `epoll_ctl(exfd, EPOLL_CTL_ADD, confd, &ev)`.
unfoldable pub on_accept : Answer → Loop → Result
on_accept a s = accepted a.ctl s a.accept

-- `DelBuf` and `close`, which takes the descriptor off the interest list.
unfoldable pub on_quit : ℕ → ℕ → Loop → Result
on_quit ptr fd s = goes_on (record s {
  heap = update s.heap ptr none;
  interest = update s.interest fd none;
  closed = s.closed ++ (fd ∷ []);
})

-- `epoll_ctl(exfd, EPOLL_CTL_MOD, fd, &ev)`
abbrev pub modify : Answer → ℕ → Events → Loop → Option Interest → Result
modify a fd ev s none = exits 1
modify a fd ev s (some old) =
    if not a.ctl
    then exits 1
    else goes_on (record s {
      interest = update s.interest fd (
          some (record {
            ptr = s.ev_ptr;
            events = record { readable = ev.readable; writable = true; edge = true };
          }));
    })

-- `((epbuf_p)(ev.data.ptr))->fd = fd`
abbrev pub redirect : Answer → ℕ → Events → Loop → Option Epbuf → Result
redirect a fd ev s none = faults
redirect a fd ev s (some b) =
    modify a fd ev (record s { heap = update s.heap s.ev_ptr (some (record b { fd = fd })) })
      (s.interest fd)

-- Bytes were read into the buffer at `ptr`; the last one is overwritten by a NUL.
unfoldable pub on_bytes : Answer → ℕ → ℕ → Events → List ℕ → Epbuf → Loop → Result
on_bytes a ptr fd ev bytes b s =
    let heap = update s.heap ptr (some (record b { buf = set bytes (length bytes - 1) 0 })) in
    redirect a fd ev (record s { heap = heap }) (heap s.ev_ptr)

abbrev pub after_read : Answer → ℕ → Events → Epbuf → Loop → Option (List ℕ) → Result
after_read a ptr ev b s none = goes_on s
after_read a ptr ev b s (some []) = on_quit ptr b.fd s
after_read a ptr ev b s (some (c ∷ bytes)) = on_bytes a ptr b.fd ev (c ∷ bytes) b s

unfoldable pub on_read : Answer → ℕ → Events → Epbuf → Loop → Result
on_read a ptr ev b s = after_read a ptr ev b s a.read

abbrev pub page : List ℕ
page = codes "http/1.0 200 ok\r\n\r\n<html><h1>Hello World...</h1></html>"

abbrev pub handle_at : Answer → ℕ → Events → Loop → Option Epbuf → Result
handle_at a ptr ev s none = faults
handle_at a ptr ev s (some b) =
    if (b.fd == s.listen_sock) && ev.readable
    then on_accept a s
    else if not (b.fd == s.listen_sock) && ev.readable
    then on_read a ptr ev b s
    else if not (b.fd == s.listen_sock) && ev.writable
    then goes_on (record s { sent = s.sent ++ ((b.fd, page) ∷ []) })
    else goes_on s

-- One round of the loop over `evs`: the event names a buffer, and the buffer the descriptor.
unfoldable pub handle : Answer → ℕ → Events → Loop → Result
handle a ptr ev s = handle_at a ptr ev s (s.heap ptr)
