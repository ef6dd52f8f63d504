-- ===== src/Httpd/Handle.antt =====
-- `HandleSock` of http/httpd.c: one request on a connected socket.
pub mod Read
pub mod Static
pub mod Failing
pub mod Program
use network_code.Base.{
  ℕ, ℤ, pos, negsuc, Bool, not, ◌&&◌, ◌||◌, Option, none, some, List, ◌++◌, if◌then◌else◌, codes,
}
use network_code.Httpd.Socket.{Conn, M, ◌>>=◌, ◌>>◌, return, close}
use network_code.Httpd.Line.{get_line, clean_hander}
use network_code.Httpd.Request.{Request, parse_request}
use network_code.Httpd.Host.{Host, Stat, executable}
use network_code.Httpd.Reply.{echo_code, echo_html}
use network_code.Httpd.Cgi.{excu_cgi}

-- A file that `stat` found. A directory is answered with its index.html.
unfoldable pub serve_file : ℕ → Host → Request → Stat → M (Unit {0})
serve_file fuel h r st =
    let path : List ℕ = if st.is_dir then r.path ++ codes "/index.html" else r.path in
    let cgi : Bool = r.cgi || not st.is_dir && executable st in
    if cgi
    then (do excu_cgi fuel h path r.method r.query; return tt)
    else (do echo_html fuel h (some path) st.size; return tt)

unfoldable pub serve_missing : ℕ → Host → M (Unit {0})
serve_missing fuel h = do echo_code fuel h; clean_hander fuel

unfoldable pub serve : ℕ → Host → Request → M ℤ
serve fuel h r = do
  elim (h.stat r.path) [ none ↦ serve_missing fuel h | some st ↦ serve_file fuel h r st ]
  close
  return (pos 0)

-- The early return for another method leaves the socket open.
unfoldable pub handle_sock : ℕ → Host → M ℤ
handle_sock fuel h = do
  line ← get_line fuel 1025
  elim (parse_request line) [
    | none ↦ do echo_code fuel h; return (negsuc 0)
    | some r ↦ serve fuel h r
  ]
