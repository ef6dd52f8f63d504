-- ===== src/Tests/Servers.antt =====
-- The two threads of LinuxChat/server/udpServerMain.cpp at concrete messages.
use network_code.Base.{◌≡◌, refl, true, some, List, [], ◌++◌, codes, arith, print_nat, print_fuel}
use network_code.LinuxChat.Outcome.{returned}
use network_code.LinuxChat.Server.{UdpServer, product_round}
use network_code.LinuxChat.System.{receives, outside}
use network_code.LinuxChat.System.Sequential.{at_work, Goes}
use network_code.Fifo.{Event, QueueRun, entered}
use network_code.LinuxChat.Ring.{Message, put_data, put_wait, put_store, put_post}
use network_code.LinuxChat.Ring.Held.{Held}
use network_code.LinuxChat.Outcome.{returned}
use network_code.LinuxChat.Server.{Json, received, register, insert_user}
use network_code.LinuxChat.System.{System, holds, faulted, start, arrives, looks, Run, here, next}
use network_code.LinuxChat.System.Order.{texts, in_hand, server_in_order}
use network_code.LinuxChat.System.Dangling.{
  Sound, Present, quitters, iterator_holds, none_quits-Present,
}
use network_code.LinuxChat.System.Round.{Round, product_round_lem}
use network_code.LinuxChat.System.Full.{Stuck, Run-Stuck, quits_fill-Stuck}
use network_code.LinuxChat.System.{decides, begin}
use network_code.LinuxChat.System.Quit.{quit-dangles}
use network_code.Tests.Udp.{
  redis, redis-Keeps, remote_a, remote_b, plain_json, server, filled, quitting,
}

-- Every field of a message is its text.
abbrev echo_json : Json
echo_json = record { field = λ key text. some text }

quit-dangles_example :
    (t : System redis) × (es : List (Event Message)) × (m : Message) × Run echo_json
      (start {redis = redis} 1024 [])
      es
      t
    × (t.consum ≡ faulted remote_a m)
quit-dangles_example =
    quit-dangles redis redis-Keeps echo_json 1024 [] remote_a b'h' (codes "i") b'Q' (codes "UIT")
      (omega arith) (omega arith) refl refl refl refl refl refl

-- The run in which the user says "hi" and QUIT.
fault_run :
    (t : System redis) × (es : List (Event Message)) × (m : Message) × Run echo_json
      (start {redis = redis} 1024 [])
      es
      t
    × (t.consum ≡ faulted remote_a m)
fault_run =
    quit-dangles redis redis-Keeps echo_json 1024 [] remote_a b'h' (codes "i") b'Q' (codes "UIT")
      (omega arith) (omega arith) refl refl refl refl refl refl

server_in_order_example :
    (ms : List Message) × Held 1024 fault_run.0.server.pool.pool fault_run.0.server.pool.consum_step
      ms
    × QueueRun 1024 [] fault_run.1 ms
    × (entered fault_run.1 ≡ (texts fault_run.0.server.sent ++ in_hand fault_run.0.consum) ++ ms)
server_in_order_example = server_in_order redis echo_json 1024 [] (omega arith) fault_run.3

iterator_holds_example : Sound (quitters fault_run.3) fault_run.0
iterator_holds_example = iterator_holds {json = echo_json} 1024 [] fault_run.3

-- A message that says "None" arrives, and `broadCast` goes to its sender.
greeted :
    (t : System redis) × (es : List (Event Message)) × (r : Run plain_json
      (start {redis = redis} 1024 [])
      es
      t)
    × (t.consum ≡ holds remote_a true)
    × (quitters r ≡ [])
unfolding received register insert_user
greeted = (
  _,
  _,
  next (arrives remote_a b'h' (codes "i") refl refl refl) (next (looks refl) (here _)),
  refl,
  refl,
)

none_quits-Present_example : Present greeted.0.server.userlist greeted.0.consum
none_quits-Present_example = none_quits-Present {json = plain_json} 1024 [] greeted.2 greeted.4

-- The second of two users says QUIT.
product_round_lem_example :
    let text : Message = codes "bye" in
    (t : UdpServer) × (db' : redis.Db) × (product_round redis quitting
        (some (remote_b, text))
        []
        server
        []
      ≡ returned (text, t, db'))
    × Round (codes "QUIT") remote_b 7 filled server t
    × (redis.get (codes "key0") db' ≡ some (some text))
    × Goes quitting
        (at_work {redis = redis} server [] [] receives outside)
        (at_work t db' text receives outside)
unfolding put_data put_wait put_store put_post print_nat print_fuel
product_round_lem_example =
    product_round_lem redis redis-Keeps quitting remote_b b'b' (codes "ye") [] (codes "QUIT")
      (codes "QUIT") server [] filled 7 (omega arith) refl refl refl refl
      ((omega arith, tt), (tt, tt))

quits_fill-Stuck_example :
    (s : System redis) × (es : List (Event Message)) × Run echo_json (start 1024 []) es s
    × Stuck s (codes "QUIT") decides
quits_fill-Stuck_example =
    quits_fill-Stuck redis redis-Keeps echo_json 1024 [] remote_a b'Q' (codes "UIT") (omega arith)
      refl refl refl refl

-- The server after 1025 times QUIT.
full_run :
    (s : System redis) × (es : List (Event Message)) × Run echo_json (start 1024 []) es s
    × Stuck s (codes "QUIT") decides
full_run =
    quits_fill-Stuck redis redis-Keeps echo_json 1024 [] remote_a b'Q' (codes "UIT") (omega arith)
      refl refl refl refl

Run-Stuck_example :
    let t : System redis = record full_run.0 { consum = begin full_run.0.server.userlist } in
    (t.server ≡ full_run.0.server) × Stuck t (codes "QUIT") decides
Run-Stuck_example =
    Run-Stuck {json = echo_json} (next (looks full_run.3.consum_outside) (here _)) full_run.3
