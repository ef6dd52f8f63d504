-- ===== src/Httpd/Handle/Program.antt =====
-- Runs of `HandleSock` of http/httpd.c that are answered by a program.
use network_code.Base.{
  ℕ, ◌<◌, ◌≡◌, ◌≢◌, refl, pos, true, false, some, List, [], ◌∷◌, ◌++◌, arith, length,
}
use network_code.Httpd.Socket.{arrive}
use network_code.Httpd.Line.Header.{all_header_lines}
use network_code.Httpd.Cgi.{excu_cgi, run_cgi, serve_child, child_output, cgi_env, is_zero}
use network_code.Httpd.Cgi.Post.{announced, post_header-announced, forward-arrive}
use network_code.Httpd.Request.{is_get, is_post, local_path}
use network_code.Httpd.Request.Words.{no_query}
use network_code.Httpd.Request.Line.{
  request_line, IsRequest, parse_post, parse_get_query, is_post-not_get,
}
use network_code.Httpd.Host.{Host, Stat}
use network_code.Httpd.Reply.{ok_header}
use network_code.Httpd.Handle.{serve_file, serve, handle_sock}
use network_code.Httpd.Handle.Read.{request_bytes, fresh, request_read, header_read, header_fuel}

is_zero-length : (body : List ℕ) → body ≢ [] → is_zero (pos (length body)) ≡ false
is_zero-length [] ne = absurd (ne refl)
is_zero-length (b ∷ body) ne = refl

-- Pipes and `fork` succeed.
pub record Forks (h : Host) : Type 0 where
  pub pipe_in : h.pipe_in ≡ true
  pub pipe_out : h.pipe_out ≡ true
  pub fork : h.fork ≡ true

module _ (fuel : ℕ) (h : Host) {m : List ℕ} {c : ℕ} {u version : List ℕ} (ws : List (List ℕ))
    (body : List ℕ) (q : IsRequest m c u version) (ok : all_header_lines ws ≡ true)
    (enough : length (request_bytes (request_line m c u version) ws body) < fuel) where
  abbrev bytes : List ℕ
  bytes = request_bytes (request_line m c u version) ws body

  -- A GET request with a query: the program at the part before the first '?' gets the query in its
  -- environment and no input, the reply is the status line and all that it writes (or the message
  -- of the failed child), the header is consumed, and the socket is closed.
  pub get_program :
      (before after : List ℕ) (st : Stat)
      → Forks h
      → is_get m ≡ true
      → no_query before ≡ true
      → c ∷ u ≡ before ++ b'?' ∷ after
      → h.stat (local_path before) ≡ some st
      → st.is_dir ≡ false
      → handle_sock fuel h (fresh bytes)
        ≡ some (
          pos 0,
          record {
            incoming = arrive body;
            sent =
                ok_header ++ child_output (h.exec (local_path before) (cgi_env m after (pos 0)) []);
            is_open = false;
          },
        )
  unfolding handle_sock serve serve_file excu_cgi run_cgi serve_child
  get_program before after st forks g n e found dir = ground (
    arith,
    request_read fuel ws body q ok enough,
    parse_get_query q before after g n e,
    found,
    dir,
    header_read fuel ws body q ok enough,
    is_post-not_get m,
  )

module _ (fuel : ℕ) (h : Host) {m : List ℕ} {c : ℕ} {u version : List ℕ} (ws : List (List ℕ))
    (body rest : List ℕ) (q : IsRequest m c u version) (ok : all_header_lines ws ≡ true)
    (enough : length (request_bytes (request_line m c u version) ws (body ++ rest)) < fuel) where
  -- A POST request whose header announces the length of its body, which is not empty: the program
  -- gets exactly the body as its input and its length in the environment, the reply is the status
  -- line and all that it writes, what follows the body stays unread, and the socket is closed.
  pub post_program :
      (st : Stat)
      → Forks h
      → is_post m ≡ true
      → h.stat (local_path (c ∷ u)) ≡ some st
      → st.is_dir ≡ false
      → announced (pos 0) ws ≡ pos (length body)
      → body ≢ []
      → handle_sock fuel h (fresh (request_bytes (request_line m c u version) ws (body ++ rest)))
        ≡ some (
          pos 0,
          record {
            incoming = arrive rest;
            sent =
                ok_header
                ++ child_output
                    (h.exec (local_path (c ∷ u)) (cgi_env m (c ∷ u) (pos (length body))) body);
            is_open = false;
          },
        )
  unfolding handle_sock serve serve_file excu_cgi run_cgi serve_child
  post_program st forks p found dir len ne = ground (
    arith,
    request_read fuel ws (body ++ rest) q ok enough,
    parse_post q p,
    is_post-not_get m p,
    found,
    dir,
    post_header-announced fuel ws (body ++ rest) (fresh []) ok
        (header_fuel fuel ws (body ++ rest) q ok enough),
    len,
    is_zero-length body ne,
    forward-arrive 0 body rest,
  )
