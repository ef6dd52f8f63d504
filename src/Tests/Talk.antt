-- ===== src/Tests/Talk.antt =====
-- The chat server and the adding program at concrete states.
use network_code.Base.{
  ◌≡◌, refl, pos, false, none, some, [], ◌∷◌, arith, codes, replicate, print_nat, print_fuel,
}
use network_code.Chat.Mask.{no_events, bit, pollin}
use network_code.Chat.Server.{Slot, User, Server}
use network_code.Chat.Rounds.{Sized}
use network_code.CgiAdd.{ends, main}
use network_code.CgiAdd.Sum.{post_adds}
use network_code.Httpd.Cgi.{cgi_env}
use network_code.Chat.Poll.{poll_loop}
use network_code.Chat.Ends.{Ends, poll_loop-Ends}

abbrev no_slot : Slot
no_slot = record { fd = none; events = no_events; revents = no_events }

abbrev listener : Slot
listener = record { fd = some 3; events = bit pollin; revents = bit pollin }

abbrev user : User
user = record { address = 0; write_buf = false; buf = replicate 1024 0 }

-- The chat server before the first user.
abbrev empty_chat : Server
empty_chat = record {
  listen_sock = 3;
  fds = listener ∷ replicate 5 no_slot;
  users = replicate 5 user;
  user_count = 0;
  tmpbuf = replicate 1024 0;
  sent = [];
  closed = [];
}

empty_chat-Sized : Sized empty_chat
empty_chat-Sized = record { slots = refl; users = refl; buffer = refl; limit = omega arith }

-- A user joins, and `poll` then fails.
poll_loop-Ends_example : Ends (
    poll_loop
      (some (record {
        revents = λ i. bit pollin;
        answers = λ n. record { accept = some (4, 99); read = none };
      })
        ∷ none
        ∷ [])
      empty_chat)
poll_loop-Ends_example =
    poll_loop-Ends
      (some (record {
        revents = λ i. bit pollin;
        answers = λ n. record { accept = some (4, 99); read = none };
      })
        ∷ none
        ∷ [])
      empty_chat empty_chat-Sized

post_adds_example :
    main (cgi_env (codes "POST") (codes "/p") (pos 9)) 0 (codes "v1=2&v2=3")
    ≡ ends 0 (
        codes
          "<html><br/>\n<body background=\"./pika.jpg\"><br/>v1=2<br/>\nv2=3<br/>\n<p>v1+v2=5<br/>\n</body><br/>\n</html><br/>\n")
unfolding print_nat print_fuel
post_adds_example = post_adds (codes "POST") (codes "/p") 0 2 3 refl (omega arith) (omega arith)
