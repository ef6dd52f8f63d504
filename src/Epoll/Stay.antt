-- ===== src/Epoll/Stay.antt =====
-- Whole runs of epoll_server.c in which no client leaves.
use network_code.Base.{
  ℕ, zero, suc, ◌<◌, ◌≤◌, ◌≡◌, refl, Bool, true, false, ◌&&◌, Option, none, some, List, [], ◌∷◌,
  ◌≢◌, arith,
}
use network_code.Epoll.{Interest, Loop, Result, goes_on, exits, faults, handle}
use network_code.Epoll.Main.{
  start, add_entry, Ready, Waited, timed_out, failed, ready, Entry, gather, and_then, handle_all,
  main_round, main_loop, epoll_main,
}
use network_code.Epoll.Alive.{stays, Alive, Fine, start-Alive, handle-Fine}

abbrev pub all_stay : List Ready → Bool
all_stay [] = true
all_stay (r ∷ rs) = stays r.answer.read && all_stay rs

abbrev pub none_leaves : List Waited → Bool
none_leaves [] = true
none_leaves (timed_out ∷ ws) = none_leaves ws
none_leaves (failed ∷ ws) = none_leaves ws
none_leaves (ready rs ∷ ws) = all_stay rs && none_leaves ws

-- Entries whose pointers are below `n`, and none leaves.
abbrev Within : ℕ → List Entry → Type 0
Within n [] = Unit {0}
Within n (e ∷ es) = (e.ptr < n) × (stays e.answer.read ≡ true) × Within n es

Within-le : (n m : ℕ) (es : List Entry) → n ≤ m → Within n es → Within m es
Within-le n m [] h w = tt
Within-le n m (e ∷ es) h (lt, st, w) = (omega arith, st, Within-le n m es h w)

gather-Within :
    (s : Loop) (rs : List Ready)
    → Alive s
    → all_stay rs ≡ true
    → Within s.fresh (gather s.interest rs)
unfolding gather
gather-Within s [] v st = tt
gather-Within s (r ∷ rs) v st =
    go (s.interest r.fd) (λ i e. v.registered r.fd i e) (gather-Within s rs v (ground arith))
  where
    go :
        (o : Option Interest)
        → ((i : Interest) → o ≡ some i → i.ptr < s.fresh)
        → Within s.fresh (gather s.interest rs)
        → Within s.fresh (add_entry r o (gather s.interest rs))
    go none f w = w
    go (some i) f w = (f i refl, ground arith, w)

-- A result that is fine, and then another step that is.
and_then-Fine :
    (n : ℕ) (r : Result) (f : Loop → Result)
    → Fine n r
    → ((t : Loop) → Alive t → n ≤ t.fresh → Fine n (f t))
    → Fine n (and_then r f)
and_then-Fine n (goes_on t) f (v, h) k = k t v h
and_then-Fine n (exits c) f x k = tt
and_then-Fine n faults f x k = x

Fine-le : (n m : ℕ) (r : Result) → n ≤ m → Fine m r → Fine n r
Fine-le n m (goes_on t) h (v, le) = (v, omega arith)
Fine-le n m (exits c) h x = tt
Fine-le n m faults h x = x

handle_all-Fine :
    (es : List Entry) (s : Loop) → Alive s → Within s.fresh es → Fine s.fresh (handle_all es s)
unfolding handle_all
handle_all-Fine [] s v w = (v, omega arith)
handle_all-Fine (e ∷ es) s v (lt, st, w) =
    and_then-Fine s.fresh (handle e.answer e.ptr e.events s) (handle_all es)
      (handle-Fine e.answer e.ptr e.events s v lt st)
      (λ t u h.
        Fine-le s.fresh t.fresh _ h (handle_all-Fine es t u (Within-le s.fresh t.fresh es h w)))

main_loop-Fine :
    (ws : List Waited) (s : Loop) → Alive s → none_leaves ws ≡ true → Fine s.fresh (main_loop ws s)
unfolding main_loop main_round
main_loop-Fine [] s v st = (v, omega arith)
main_loop-Fine (timed_out ∷ ws) s v st = main_loop-Fine ws s v st
main_loop-Fine (failed ∷ ws) s v st = tt
main_loop-Fine (ready rs ∷ ws) s v st =
    let later : none_leaves ws ≡ true = ground arith in
    and_then-Fine s.fresh (handle_all (gather s.interest rs) s) (main_loop ws)
      (handle_all-Fine (gather s.interest rs) s v (gather-Within s rs v (ground arith)))
      (λ t u h. Fine-le s.fresh t.fresh _ h (main_loop-Fine ws t u later))

Fine-ne-faults : (n : ℕ) (r : Result) → Fine n r → r ≢ faults
Fine-ne-faults n (goes_on t) f e = cc
Fine-ne-faults n (exits c) f e = cc
Fine-ne-faults n faults f e = f

-- As long as no client leaves, the server never uses freed memory: in every run, whatever else the
-- system calls give and in whatever order descriptors become ready, it goes on or exits by a code.
pub epoll_main-ne-faults :
    (argc listen_sock : ℕ) (create ctl : Bool) (ws : List Waited)
    → none_leaves ws ≡ true
    → epoll_main argc listen_sock create ctl ws ≢ faults
unfolding epoll_main
epoll_main-ne-faults zero listen_sock create ctl ws h e = cc
epoll_main-ne-faults (suc zero) listen_sock create ctl ws h e = cc
epoll_main-ne-faults (suc (suc zero)) listen_sock create ctl ws h e = cc
epoll_main-ne-faults (suc (suc (suc zero))) listen_sock false ctl ws h e = cc
epoll_main-ne-faults (suc (suc (suc zero))) listen_sock true false ws h e = cc
epoll_main-ne-faults (suc (suc (suc zero))) listen_sock true true ws h e =
    Fine-ne-faults 1 _ (main_loop-Fine ws (start listen_sock) (start-Alive listen_sock) h) e
epoll_main-ne-faults (suc (suc (suc (suc argc)))) listen_sock create ctl ws h e = cc
