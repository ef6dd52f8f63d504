-- ===== src/LinuxChat/System/Save.antt =====
-- What the branch of `productRun` that saves a message leaves as it was.
use network_code.Base.{◌+◌, ◌%◌, ℤ, ◌≡◌, [], ◌∷◌, ◌++◌}
use network_code.LinuxChat.Ring.{Message}
use network_code.LinuxChat.Outcome.{Outcome, returned, waits, lost, ◌>>=◌}
use network_code.LinuxChat.Redis.{Redis, insert_db}
use network_code.LinuxChat.Server.{UdpServer, key_max, session_key, save}

-- Saving a message changes neither the ring nor what was sent nor the users.
pub save-keeps :
    (redis : Redis) (m : Message) (s v : UdpServer) (db db' : redis.Db)
    → save redis m s db ≡ returned (v, db')
    → (v.pool ≡ s.pool) × (v.sent ≡ s.sent) × (v.userlist ≡ s.userlist)
unfolding save
save-keeps redis m s v db db' e = go (insert_db redis (session_key s.session_count) m db) e
  where
    go :
        (o : Outcome (ℤ × redis.Db))
        → (◌>>=◌ {B = UdpServer × redis.Db} o λ x. returned (
          record s {
            session_count = (s.session_count + 1) % key_max;
            session = s.session ++ (session_key s.session_count ∷ []);
          },
          x.1,
        ))
          ≡ returned (v, db')
        → (v.pool ≡ s.pool) × (v.sent ≡ s.sent) × (v.userlist ≡ s.userlist)
    go (returned x) e = (cc, cc, cc)
    go waits e = absurd (cc)
    go lost e = absurd (cc)
