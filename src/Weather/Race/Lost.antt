-- ===== src/Weather/Race/Lost.antt =====
-- An address that weather_server/wwwroot/cgi/register.cpp loses where two programs run at once.
use network_code.Base.{
  ℕ, ◌+◌, ◌-◌, ◌^◌, ◌<◌, ◌≤◌, ◌≡◌, ◌≢◌, ◌⊎◌, inl, inr, refl, sym, ap, ◌∙◌, true, ◌||◌, some, List,
  [], ◌∷◌, ◌++◌, arith, length, print_nat, length-append,
}
use mathlib.Core.Path.{subst}
use network_code.Base.Decimal.{no_nul}
use network_code.Weather.Keys.{count_key, user, count_key-ne}
use network_code.Weather.Register.{Redis, Keeps, gives}
use network_code.Weather.Count.{clean, Listed, Listed-count, Registered, user_zero_known}
use network_code.Weather.Race.{begins, finished, Turn, one, other, advance, take_turns}
use network_code.Weather.Race.Phases.{
  Phase, raising, naming, reading, done, counted, stored, left, stage, ones, others, or_swap,
  left-zero, Listed-one_more, Listed-user,
}
use network_code.Weather.Race.Calls.{reads_count, stores_count, stores_email, reads_back}

module _ (r : Redis) (k : Keeps r) where
  open r use {Db}

  module _ (a b : List ℕ) (ms : List (List ℕ)) (key : List ℕ) (old : Db) (ca : no_nul a ≡ true)
      (cb : no_nul b ≡ true) (cm : clean ms ≡ true) (small : length ms + 1 < 10 ^ 7)
      (not_count : count_key ≢ key) (not_user : user (length ms) ≢ key) where
    abbrev OneOf : List ℕ → Type 0
    OneOf v = (v ≡ a) ⊎ (v ≡ b)

    -- The data where the two programs stand so.
    record Kept (db : Db) (x y : Phase) : Type 0 where
      listed : Listed r k db 0 ms
      others_same : r.hget key db ≡ r.hget key old
      raised :
          (counted x || counted y) ≡ true
          → r.hget count_key db ≡ some (some (print_nat (length ms + 1)))
      named :
          (stored x || stored y) ≡ true
          → (v : List ℕ) × OneOf v × (r.hget (user (length ms)) db ≡ some (some v))

    Kept-swap : (db : Db) (x y : Phase) → Kept db x y → Kept db y x
    Kept-swap db x y v = record {
      listed = v.listed;
      others_same = v.others_same;
      raised = λ e. v.raised (or_swap (counted y) (counted x) e);
      named = λ e. v.named (or_swap (stored y) (stored x) e);
    }

    OneOf-no_nul : (v : List ℕ) → OneOf v → no_nul v ≡ true
    OneOf-no_nul v (inl e) = ap no_nul e ∙ ca
    OneOf-no_nul v (inr e) = ap no_nul e ∙ cb

    -- What one step of a program makes of its phase and of the data, wherever the other stands.
    abbrev Steps : List ℕ → Db → Phase → Phase → Type 0
    Steps email db x y =
        (x' : Phase) × (db' : Db) × (advance r (stage (length ms) email x) db
          ≡ gives (stage (length ms) email x', db'))
        × Kept db' x' y
        × (left x' ≡ left x - 1)

    raising_step :
        (email : List ℕ) (db : Db) (y : Phase) → Kept db raising y → Steps email db raising y
    raising_step email db y v = (
      naming,
      k.after_hset count_key (print_nat (length ms + 1)) db,
      stores_count r k email (print_nat (length ms)) (length ms + 1) db,
      record {
        listed = Listed-count r k db 0 ms (print_nat (length ms + 1)) v.listed;
        others_same =
            k.hget_other count_key key (print_nat (length ms + 1)) db not_count ∙ v.others_same;
        raised = λ e. k.hget_same count_key (print_nat (length ms + 1)) db;
        named = λ e.
            let (w, h, f) = v.named e in
            (
              w,
              h,
              k.hget_other count_key (user (length ms)) (print_nat (length ms + 1)) db
                    (count_key-ne (length ms))
                  ∙ f,
            );
      },
      refl,
    )

    naming_step :
        (email : List ℕ) (db : Db) (y : Phase)
        → OneOf email
        → Kept db naming y
        → Steps email db naming y
    naming_step email db y h v = (
      reading,
      k.after_hset (user (length ms)) email db,
      stores_email r k email (length ms) db (OneOf-no_nul email h),
      record {
        listed =
            Listed-user r k db 0 ms (length ms) email (omega arith) (omega (arith, small)) v.listed;
        others_same = k.hget_other (user (length ms)) key email db not_user ∙ v.others_same;
        raised = λ e.
            k.hget_other (user (length ms)) count_key email db
              (λ f. count_key-ne (length ms) (sym f))
            ∙ v.raised refl;
        named = λ e. (email, h, k.hget_same (user (length ms)) email db);
      },
      refl,
    )

    reading_step :
        (email : List ℕ) (db : Db) (y : Phase) → Kept db reading y → Steps email db reading y
    reading_step email db y v =
        let (w, h, f) = v.named refl in
        let (out, o, e) =
          user_zero_known r k ms w db cm (OneOf-no_nul w h)
            (Listed-one_more r k db 0 ms (length ms) w (omega arith) f v.listed) in
        (
          done out,
          db,
          reads_back r k out db o e,
          record {
            listed = v.listed;
            others_same = v.others_same;
            raised = λ e'. v.raised refl;
            named = λ e'. v.named refl;
          },
          refl,
        )

    goes_on :
        (email : List ℕ) (db : Db) (x y : Phase) → OneOf email → Kept db x y → Steps email db x y
    unfolding advance
    goes_on email db raising y h v = raising_step email db y v
    goes_on email db naming y h v = naming_step email db y h v
    goes_on email db reading y h v = reading_step email db y v
    goes_on email db (done out) y h v = (done out, db, refl, v, refl)

    -- What a schedule makes of the two phases.
    abbrev Ends : List Turn → Db → Phase → Phase → Type 0
    Ends ts db x y =
        (x' : Phase) × (y' : Phase) × (db' : Db) × (take_turns r ts (stage (length ms) a x)
            (stage (length ms) b y) db
          ≡ gives (stage (length ms) a x', stage (length ms) b y', db'))
        × Kept db' x' y'
        × (left x' ≡ left x - ones ts)
        × (left y' ≡ left y - others ts)

    turns_on : (ts : List Turn) (db : Db) (x y : Phase) → Kept db x y → Ends ts db x y
    unfolding take_turns
    turns_on [] db x y v = (x, y, db, refl, v, omega arith, omega arith)
    turns_on (one ∷ ts) db x y v =
        let (x1, db1, e, v1, l) = goes_on a db x y (inl refl) v in
        let (x', y', db', f, w, lx, ly) = turns_on ts db1 x1 y v1 in
        (x', y', db', rw e f, w, omega (arith, l, lx), ly)
    turns_on (other ∷ ts) db x y v =
        let (y1, db1, e, v1, l) = goes_on b db y x (inr refl) (Kept-swap db x y v) in
        let (x', y', db', f, w, lx, ly) = turns_on ts db1 x y1 (Kept-swap db1 y1 x v1) in
        (x', y', db', rw e f, w, lx, omega (arith, l, ly))

    -- At the end of a schedule that is long enough.
    abbrev Lost : List Turn → Type 0
    Lost ts =
        (out : List ℕ) × (out' : List ℕ) × (db' : Db) × (v : List ℕ) × (take_turns r ts
            (stage (length ms) a raising) (stage (length ms) b raising) old
          ≡ gives (finished out, finished out', db'))
        × OneOf v
        × Registered r k db' (ms ++ (v ∷ []))
        × (r.hget key db' ≡ r.hget key old)

    loses : (ts : List Turn) → 3 ≤ ones ts → 3 ≤ others ts → Listed r k old 0 ms → Lost ts
    loses ts enough enough' listed =
        let start : Kept old raising raising = record {
          listed = listed;
          others_same = refl;
          raised = λ e. absurd (cc);
          named = λ e. absurd (cc);
        } in
        let (x, y, db', e, v, lx, ly) = turns_on ts old raising raising start in
        let (out, p) = left-zero x (omega (arith, lx, enough)) in
        let (out', q) = left-zero y (omega (arith, ly, enough')) in
        let (w, h, f) = v.named (rw p refl) in
        (
          out,
          out',
          db',
          w,
          subst
              (λ (z : Phase × Phase).
                take_turns r ts (stage (length ms) a raising) (stage (length ms) b raising) old
                ≡ gives (stage (length ms) a z.0, stage (length ms) b z.1, db'))
              (λ i. (p i, q i)) e,
          h,
          record {
            count =
                v.raised (rw p refl)
                ∙ ap (λ (i : ℕ). some (some (print_nat i))) {x = length ms + 1}
                    (omega (arith, length-append ms (w ∷ [])));
            listed = Listed-one_more r k db' 0 ms (length ms) w (omega arith) f v.listed;
          },
          v.others_same,
        )

  -- If each of two programs takes its first step, which reads the counter, before either takes another,
  -- then in whatever order their later steps come, if there are at least three of each, both end well;
  -- but the counter is raised only once, one of the two addresses stands under the next user, and any
  -- key but the counter's and this user's is as it was. So it is after any fewer than ten million
  -- registrations, and for all addresses without NUL.
  pub both_read-loses :
      (a b : List ℕ) (ms : List (List ℕ)) (db : Db) (key : List ℕ) (ts : List Turn)
      → no_nul a ≡ true
      → no_nul b ≡ true
      → clean ms ≡ true
      → length ms + 1 < 10 ^ 7
      → Registered r k db ms
      → count_key ≢ key
      → user (length ms) ≢ key
      → 3 ≤ ones ts
      → 3 ≤ others ts
      → (out : List ℕ) × (out' : List ℕ) × (db' : Db) × (v : List ℕ) × (take_turns r
            (one ∷ other ∷ ts)
            (begins a)
            (begins b)
            db
          ≡ gives (finished out, finished out', db'))
        × ((v ≡ a) ⊎ (v ≡ b))
        × Registered r k db' (ms ++ (v ∷ []))
        × (r.hget key db' ≡ r.hget key db)
  unfolding take_turns
  both_read-loses a b ms db key ts ca cb cm small v not_count not_user enough enough' =
      let (out, out', db', w, e, h, u, o) =
        loses a b ms key db ca cb cm small not_count not_user ts enough enough' v.listed in
      (
        out,
        out',
        db',
        w,
        rw
            (
              reads_count r k a (length ms) db small v.count,
              reads_count r k b (length ms) db small v.count,
            )
            e,
        h,
        u,
        o,
      )
