-- ===== src/Sniffer/Session.antt =====
-- `main` of NetWorkSniffer/main.c: packets and commands, until one of them ends the program.
use network_code.Base.{
  ℕ, zero, suc, ◌+◌, ◌%◌, ◌^◌, ◌==◌, ◌||◌, not, Bool-cases, inl, inr, ◌≡◌, ℤ, pos, negsuc, Bool,
  true, false, Option, none, some, List, [], ◌∷◌, ◌++◌, if◌then◌else◌, length, take, codes, c_str,
  case_eq, ltb, arith,
}
use network_code.Sniffer.Dump.{Memory}
use network_code.Sniffer.Process.{Counters, Sniffer, process_packet, classify}

-- `exec_cmd` on what `read` put into `buf`, in front of what the array held before.
abbrev pub exec_cmd : List ℕ → Bool
exec_cmd buf = case_eq (take 4 (c_str buf)) (codes "quit")

-- `command_interpreter`: at most 512 bytes are read.
unfoldable pub command_interpreter : List ℕ → List ℕ → Bool
command_interpreter stale typed =
    let buf = take 512 typed in if ltb 0 (length buf) then exec_cmd (buf ++ stale) else false

-- What `recvfrom` gives: its result, and the buffer.
pub record Frame : Type 0 where
  pub size : ℤ
  pub buf : Memory

-- One return of `select`: an error, or what can be read. `stale` is what the array of
-- `command_interpreter` held before.
pub data Ready : Type 0 where
  failed : Ready
  ready : (typed : Option (List ℕ)) (stale : List ℕ) (frame : Option Frame) → Ready

-- Where the loop stands after a round: it goes on, or `main` has returned.
pub data Session : Type 0 where
  runs : Sniffer → Session
  returns : ℕ → Sniffer → Session

abbrev received : ℤ → Memory → Sniffer → Session
received (negsuc n) buf s = returns 1 s
received (pos zero) buf s = returns 1 s
received (pos (suc n)) buf s = runs (process_packet buf (suc n) s)

-- Standard input comes first; the packet then waits for the next round.
unfoldable pub round : Ready → Sniffer → Session
round failed s = returns 1 s
round (ready (some typed) stale frame) s =
    if command_interpreter stale typed then returns 0 s else runs s
round (ready none stale (some f)) s = received f.size f.buf s
round (ready none stale none) s = runs s

abbrev continue : Session → (Sniffer → Session) → Session
continue (returns n s) k = returns n s
continue (runs s) k = k s

unfoldable pub session : List Ready → Sniffer → Session
session [] s = runs s
session (r ∷ rs) s = continue (round r s) (session rs)

-- How `main` goes: it is lost, it exits, or it is in its loop or has left it.
pub data Main : Type 0 where
  lost : Main
  exits : ℕ → Main
  watches : Session → Main

-- `main`: whether `fopen` and `socket` succeed, and what the memory that `malloc` gives holds. The first
-- line goes to the log before the test for the null pointer. `malloc` is asked for the size of a pointer,
-- which does not hold six numbers; the model lets the program use the memory behind it.
unfoldable pub sniffer_main :
    (date time : List ℕ) (opened made : Bool) → Counters → List Ready → Main
sniffer_main date time false made found rs = lost
sniffer_main date time true false found rs = exits 2
sniffer_main date time true true found rs = watches (
    session rs (record {
      prot = found;
      log = codes "***LOGFILE(" ++ (date ++ (codes " - " ++ (time ++ codes ")***\n")));
    }))

abbrev pub state : Session → Sniffer
state (runs s) = s
state (returns n s) = s

-- The frames that are processed, read off the returns of `select`: those that come without a command, up
-- to an error, an empty frame or "quit".
abbrev pub frames_read : List Ready → List Memory
frames_read [] = []
frames_read (failed ∷ rs) = []
frames_read (ready (some typed) stale frame ∷ rs) =
    if command_interpreter stale typed then [] else frames_read rs
frames_read (ready none stale none ∷ rs) = frames_read rs
frames_read (ready none stale (some f) ∷ rs) = elim f.size [
  | negsuc n ↦ []
  | pos zero ↦ []
  | pos (suc n) ↦ f.buf ∷ frames_read rs
]

-- How many of the frames have this test true of their byte 24, where the program looks for the protocol.
abbrev pub tally : (ℕ → Bool) → List Memory → ℕ
tally test [] = 0
tally test (f ∷ fs) = if test (f 24) then suc (tally test fs) else tally test fs

abbrev pub is : ℕ → ℕ → Bool
is k n = n == k

abbrev pub is_other : ℕ → Bool
is_other n = not (n == 1 || n == 2 || n == 6 || n == 17)

-- Each counter is raised by the number of frames of its protocol, and the total by that of all, modulo
-- 2 ^ 32.
pub record Counted (n : Counters) (fs : List Memory) (n' : Counters) : Type 0 where
  pub tcp : n'.tcp % 2 ^ 32 ≡ (n.tcp + tally (is 6) fs) % 2 ^ 32
  pub udp : n'.udp % 2 ^ 32 ≡ (n.udp + tally (is 17) fs) % 2 ^ 32
  pub icmp : n'.icmp % 2 ^ 32 ≡ (n.icmp + tally (is 1) fs) % 2 ^ 32
  pub igmp : n'.igmp % 2 ^ 32 ≡ (n.igmp + tally (is 2) fs) % 2 ^ 32
  pub others : n'.others % 2 ^ 32 ≡ (n.others + tally is_other fs) % 2 ^ 32
  pub total : n'.total % 2 ^ 32 ≡ (n.total + length fs) % 2 ^ 32

none-Counted : (n : Counters) → Counted n [] n
none-Counted n = record {
  tcp = omega arith;
  udp = omega arith;
  icmp = omega arith;
  igmp = omega arith;
  others = omega arith;
  total = omega arith;
}

process_packet-Counted :
    (f : Memory) (size : ℕ) (s : Sniffer) (fs : List Memory) (n' : Counters)
    → Counted (process_packet f size s).prot fs n'
    → Counted s.prot (f ∷ fs) n'
unfolding process_packet classify
process_packet-Counted f size s fs n' c = record {
  tcp = ground (arith, c.tcp);
  udp = ground (arith, c.udp);
  icmp = ground (arith, c.icmp);
  igmp = ground (arith, c.igmp);
  others = ground (arith, c.others);
  total = ground (arith, c.total);
}

received-Counted :
    (n : ℤ) (f : Memory) (fs : List Memory) (rest : Sniffer → Session) (s : Sniffer)
    → ((t : Sniffer) → Counted t.prot fs (state (rest t)).prot)
    → Counted s.prot
        (elim n [ negsuc n ↦ [] | pos zero ↦ [] | pos (suc n) ↦ f ∷ fs ])
        (state (continue (received n f s) rest)).prot
received-Counted (negsuc n) f fs rest s c = none-Counted s.prot
received-Counted (pos zero) f fs rest s c = none-Counted s.prot
received-Counted (pos (suc n)) f fs rest s c =
    process_packet-Counted f (suc n) s fs (state (rest (process_packet f (suc n) s))).prot
      (c (process_packet f (suc n) s))

-- Through a whole session, however it ends and whatever the counters hold at the beginning, each counter
-- is raised, modulo 2 ^ 32, by the number of frames read whose byte 24 is its protocol (or none of the
-- four, for the others), and the total by the number of frames read: those that come without a command,
-- up to an error, an empty frame or "quit".
pub session-Counted :
    (rs : List Ready) (s : Sniffer) → Counted s.prot (frames_read rs) (state (session rs s)).prot
unfolding session round
session-Counted [] s = none-Counted s.prot
session-Counted (failed ∷ rs) s = none-Counted s.prot
session-Counted (ready (some typed) stale frame ∷ rs) s =
    elim (Bool-cases (command_interpreter stale typed)) [
      | inl e ↦ rw e (none-Counted s.prot)
      | inr e ↦ rw e (session-Counted rs s)
    ]
session-Counted (ready none stale none ∷ rs) s = session-Counted rs s
session-Counted (ready none stale (some f) ∷ rs) s =
    received-Counted f.size f.buf (frames_read rs) (session rs) s (session-Counted rs)

exec_cmd-quit :
    (q u i t : ℕ) (rest : List ℕ)
    → case_eq (q ∷ u ∷ i ∷ t ∷ []) (codes "quit") ≡ true
    → exec_cmd (q ∷ u ∷ i ∷ t ∷ rest) ≡ true
exec_cmd-quit q u i t rest h = ground arith

-- Typing "quit", in any letter case and with anything behind it, ends the session with code 0 and
-- leaves the counters and the log; the packets that come later are not read.
quit_ends :
    (q u i t : ℕ) (more stale : List ℕ) (frame : Option Frame) (rs : List Ready) (s : Sniffer)
    → case_eq (q ∷ u ∷ i ∷ t ∷ []) (codes "quit") ≡ true
    → session (ready (some (q ∷ u ∷ i ∷ t ∷ more)) stale frame ∷ rs) s ≡ returns 0 s
unfolding session round command_interpreter
quit_ends q u i t more stale frame rs s h =
    ground (arith, exec_cmd-quit q u i t (take 508 more ++ stale) h)
