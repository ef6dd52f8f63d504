-- ===== src/Httpd/Handle/Static.antt =====
-- Whole runs of `HandleSock` of http/httpd.c that answer with a file.
use network_code.Base.{
  ℕ, ◌<◌, ◌≡◌, pos, true, false, some, List, ◌∷◌, ◌++◌, arith, length, codes, take,
}
use network_code.Httpd.Socket.{arrive}
use network_code.Httpd.Line.Header.{all_header_lines}
use network_code.Httpd.Request.{is_get, local_path}
use network_code.Httpd.Request.Words.{no_query}
use network_code.Httpd.Request.Line.{request_line, IsRequest, parse_get_plain}
use network_code.Httpd.Host.{Host, Stat, executable}
use network_code.Httpd.Reply.{ok_header, echo_html}
use network_code.Httpd.Handle.{serve_file, serve, handle_sock}
use network_code.Httpd.Handle.Read.{request_bytes, fresh, request_read, header_read}

module _ (fuel : ℕ) (h : Host) {m : List ℕ} {c : ℕ} {u version : List ℕ} (ws : List (List ℕ))
    (body : List ℕ) (q : IsRequest m c u version) (ok : all_header_lines ws ≡ true)
    (enough : length (request_bytes (request_line m c u version) ws body) < fuel) where
  abbrev bytes : List ℕ
  bytes = request_bytes (request_line m c u version) ws body

  -- A GET request, without a query, for a file that cannot be executed: the reply is the status line
  -- and the first `st_size` bytes of the file, the header is consumed, the body stays unread, and the
  -- socket is closed.
  pub get_file :
      (st : Stat) (file : List ℕ)
      → is_get m ≡ true
      → no_query (c ∷ u) ≡ true
      → h.stat (local_path (c ∷ u)) ≡ some st
      → st.is_dir ≡ false
      → executable st ≡ false
      → h.open_file (local_path (c ∷ u)) ≡ some file
      → handle_sock fuel h (fresh bytes)
        ≡ some (
          pos 0,
          record { incoming = arrive body; sent = ok_header ++ take st.size file; is_open = false },
        )
  unfolding handle_sock serve serve_file echo_html
  get_file st file g n found dir exe content = ground (
    arith,
    request_read fuel ws body q ok enough,
    parse_get_plain q g n,
    found,
    dir,
    exe,
    header_read fuel ws body q ok enough,
    content,
  )

  -- A GET request, without a query, for a directory: the reply is the status line and the index
  -- file cut to the size of the directory, whatever its own size is.
  get_directory :
      (st : Stat) (file : List ℕ)
      → is_get m ≡ true
      → no_query (c ∷ u) ≡ true
      → h.stat (local_path (c ∷ u)) ≡ some st
      → st.is_dir ≡ true
      → h.open_file (local_path (c ∷ u) ++ codes "/index.html") ≡ some file
      → handle_sock fuel h (fresh bytes)
        ≡ some (
          pos 0,
          record { incoming = arrive body; sent = ok_header ++ take st.size file; is_open = false },
        )
  unfolding handle_sock serve serve_file echo_html
  get_directory st file g n found dir content = ground (
    arith,
    request_read fuel ws body q ok enough,
    parse_get_plain q g n,
    found,
    dir,
    header_read fuel ws body q ok enough,
    content,
  )
