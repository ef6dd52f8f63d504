-- ===== src/Httpd/Handle/Read.antt =====
-- The bytes of a whole request to http/httpd.c, and the first steps of `HandleSock` on them.
use network_code.Base.{ℕ, ◌<◌, ◌≡◌, true, some, List, [], ◌∷◌, ◌++◌, arith, length, length-append}
use network_code.Httpd.Socket.{arrive, Conn}
use network_code.Httpd.Line.{get_line, clean_hander}
use network_code.Httpd.Line.Chop.{chop-line, get_line-chop}
use network_code.Httpd.Line.Header.{all_header_lines, header_bytes, clean_hander-header}
use network_code.Httpd.Request.Line.{request_line, IsRequest, plain-request_line}

-- A request as it is sent: the line, the header, and what follows.
abbrev pub request_bytes : List ℕ → List (List ℕ) → List ℕ → List ℕ
request_bytes line ws body = line ++ 13 ∷ 10 ∷ header_bytes ws body

-- A connection on which these bytes wait.
abbrev pub fresh : List ℕ → Conn
fresh bs = record { incoming = arrive bs; sent = []; is_open = true }

module _ (fuel : ℕ) {m : List ℕ} {c : ℕ} {u version : List ℕ} (ws : List (List ℕ)) (body : List ℕ)
    (q : IsRequest m c u version) (ok : all_header_lines ws ≡ true)
    (enough : length (request_bytes (request_line m c u version) ws body) < fuel) where
  abbrev line : List ℕ
  line = request_line m c u version

  abbrev bytes : List ℕ
  bytes = request_bytes line ws body

  pub header_fuel : length (header_bytes ws body) < fuel
  header_fuel = omega (arith, enough, length-append {0} line (13 ∷ 10 ∷ header_bytes ws body))

  pub request_read :
      get_line fuel 1025 (fresh bytes) ≡ some (line ++ 10 ∷ [], fresh (header_bytes ws body))
  request_read = rw (
    get_line-chop fuel 1025 bytes (fresh bytes) enough,
    chop-line 1024 line (header_bytes ws body) (plain-request_line q) q.line_fits,
  )

  pub header_read : clean_hander fuel (fresh (header_bytes ws body)) ≡ some (tt, fresh body)
  header_read = clean_hander-header fuel ws body (fresh []) ok header_fuel
