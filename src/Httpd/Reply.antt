-- ===== src/Httpd/Reply.antt =====
-- `echo_code` and `echo_html` of http/httpd.c.
use network_code.Base.{ℕ, ℤ, pos, negsuc, Option, none, some, List, codes, take}
use network_code.Httpd.Socket.{M, ◌>>◌, return, send}
use network_code.Httpd.Line.{clean_hander}
use network_code.Httpd.Host.{Host, Stat}

abbrev pub ok_header : List ℕ
ok_header = codes "HTTP/1.0 200 OK\r\n\r\n"

-- `sendfile(sock, fd, NULL, size)`: at most `size` bytes of the file.
abbrev send_file : ℕ → List ℕ → M (Unit {0})
send_file size file = send (take size file)

abbrev pub not_found_page : List ℕ
not_found_page = codes "./wwwroot/404.html"

abbrev pub size_of : Host → Option Stat → ℕ
size_of h none = h.stale_size
size_of h (some st) = st.size

unfoldable pub echo_code : ℕ → Host → M ℤ
echo_code fuel h = do
  clean_hander fuel
  elim (h.open_file not_found_page) [
    | none ↦ return (negsuc 1)
    | some file ↦ do
      send ok_header
      send_file (size_of h (h.stat not_found_page)) file
      return (pos 0)
  ]

-- The first argument may be the null pointer. The result is `none` where the function ends without
-- a `return`; no caller reads it.
unfoldable pub echo_html : ℕ → Host → Option (List ℕ) → ℕ → M (Option ℤ)
echo_html fuel h none size = return (some (negsuc 0))
echo_html fuel h (some path) size = do
  clean_hander fuel
  elim (h.open_file path) [
    | none ↦ return (some (negsuc 1))
    | some file ↦ do send ok_header; send_file size file; return none
  ]
