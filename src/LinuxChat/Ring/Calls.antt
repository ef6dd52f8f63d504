-- ===== src/LinuxChat/Ring/Calls.antt =====
-- Whole calls of `PutData` and `GetData` of LinuxChat/pool/pool.cpp, one after the other.
use network_code.Base.{
  ℕ, ◌-◌, ◌<◌, ◌≡◌, refl, sym, ◌∙◌, none, some, List, [], ◌∷◌, ◌++◌, arith, length, append-nil, ap,
}
use mathlib.Core.Path.{subst}
use network_code.Fifo.{run_in_order}
use network_code.LinuxChat.Ring.{
  Message, Pool, put_wait, put_store, put_post, get_wait, get_take, get_post, put_data, get_data,
}
use network_code.LinuxChat.Ring.Threads.{
  Producer, Consumer, Threads, here, next, put_begins, put_stores, put_ends, get_begins, get_takes,
  get_ends, Inv,
}
use network_code.LinuxChat.Ring.Refine.{run_refines}

-- No thread is in a call.
abbrev pub alone : Pool → Threads
alone p = record { pool = p; producer = Producer.rests; consumer = Consumer.rests }

abbrev pub Holding : ℕ → Pool → List Message → Type 0
Holding cap p ms = Inv cap (alone p) ms

pub put_wait-free : (p : Pool) → 0 < p.blank → put_wait p ≡ some (record p { blank = p.blank - 1 })
unfolding put_wait
put_wait-free p h = ground arith

pub get_wait-free :
    (p : Pool) → 0 < p.data_count → get_wait p ≡ some (record p { data_count = p.data_count - 1 })
unfolding get_wait
get_wait-free p h = ground arith

put_data-free :
    (m : Message) (p : Pool)
    → 0 < p.blank
    → put_data m p ≡ some (put_post (put_store m (record p { blank = p.blank - 1 })))
unfolding put_data
put_data-free m p h = ground arith

get_data-free :
    (p : Pool)
    → 0 < p.data_count
    → let q : Pool = record p { data_count = p.data_count - 1 } in
      get_data p ≡ some ((get_take q).0, get_post (get_take q).1)
unfolding get_data
get_data-free p h = ground arith

first_same : {x y : Message} {s t : List Message} → x ∷ s ≡ y ∷ t → (x ≡ y) × (s ≡ t)
first_same e = (cc, cc)

module _ (cap : ℕ) (p : Pool) (ms : List Message) (m : Message) where
  pub put_data-Holding :
      Holding cap p ms
      → length ms < cap
      → (q : Pool) × (put_data m p ≡ some q) × Holding cap q (ms ++ (m ∷ []))
  put_data-Holding v room =
      let free : 0 < p.blank = omega (arith, v.tokens, v.count) in
      let (ns, w, run) =
        run_refines ms
          (next (put_begins m refl (put_wait-free p free))
            (next (put_stores m refl) (next (put_ends refl) (here _))))
          v in
      (_, put_data-free m p free, subst (Holding cap _) (sym (run_in_order run)) w)

  pub get_data-Holding :
      Holding cap p (m ∷ ms) → (q : Pool) × (get_data p ≡ some (m, q)) × Holding cap q ms
  get_data-Holding v =
      let held : 0 < p.data_count = omega (arith, v.count) in
      let (ns, w, run) =
        run_refines (m ∷ ms)
          (next (get_begins refl (get_wait-free p held))
            (next (get_takes refl) (next (get_ends refl) (here _))))
          v in
      let (same, rest) =
        first_same (ap (λ (l : List Message). m ∷ l) (sym (append-nil ms)) ∙ run_in_order run) in
      let q : Pool = get_post (get_take (record p { data_count = p.data_count - 1 })).1 in
      (
        q,
        get_data-free p held ∙ ap (λ (x : Message). some (x, q)) (sym same),
        subst (Holding cap _) (sym rest) w,
      )

-- With as many messages as slots `PutData` waits, and without any `GetData` does.
pub put_data-waits :
    (cap : ℕ) (p : Pool) (ms : List Message) (m : Message)
    → Holding cap p ms
    → length ms ≡ cap
    → put_data m p ≡ none
unfolding put_data
put_data-waits cap p ms m v full = ground (arith, v.tokens, v.count)

pub get_data-waits : (cap : ℕ) (p : Pool) → Holding cap p [] → get_data p ≡ none
unfolding get_data
get_data-waits cap p v = ground (arith, v.count)
