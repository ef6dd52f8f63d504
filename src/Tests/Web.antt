-- ===== src/Tests/Web.antt =====
-- The web server of http/httpd.c at concrete requests.
use network_code.Base.{
  ℕ, ◌+◌, ◌<◌, ◌≤◌, ◌≡◌, refl, pos, Bool, true, false, none, some, List, [], ◌∷◌, ◌++◌, arith,
  codes, str_eq, if◌then◌else◌, digits_value, atoi,
}
use network_code.Httpd.Socket.{byte, fault, arrive}
use network_code.Httpd.Line.{get_line, clean_hander}
use network_code.Httpd.Line.Chop.{chop, get_line-chop, get_line_never_returns}
use network_code.Httpd.Line.Header.{clean_hander-header}
use network_code.Httpd.Request.{
  request_words, copy_method, skip_blanks, copy_url, split_query, local_path, parse_request,
}
use network_code.Httpd.Request.Words.{
  request_words-line, split_query_lem, parse_request_fits, no_query,
}
use network_code.Httpd.Request.Line.{request_line, IsRequest}
use network_code.Httpd.Host.{Host, Stat}
use network_code.Httpd.Reply.{ok_header}
use network_code.Httpd.Cgi.{content_length}
use network_code.Httpd.Handle.{handle_sock}
use network_code.Httpd.Handle.Read.{request_bytes, fresh}
use network_code.Httpd.Handle.Static.{get_file}
use network_code.Httpd.Line.{clean_hander}
use network_code.Httpd.Handle.Program.{Forks, get_program, post_program}

abbrev stat_of : Bool → Bool → ℕ → Stat
stat_of dir exe size = record {
  is_dir = dir;
  exec_usr = exe;
  exec_grp = false;
  exec_oth = false;
  size = size;
}

-- A file of five bytes, a directory of three, and a program that repeats its input.
abbrev site : Host
site = record {
  stat = λ p.
      if str_eq p (codes "wwwroot/a")
      then some (stat_of false false 5)
      else if str_eq p (codes "wwwroot/d")
      then some (stat_of true true 3)
      else if str_eq p (codes "wwwroot/p")
      then some (stat_of false true 9)
      else none;
  open_file = λ p.
      if str_eq p (codes "wwwroot/a")
      then some (codes "hello")
      else if str_eq p (codes "wwwroot/d/index.html")
      then some (codes "index")
      else none;
  stale_size = 0;
  pipe_in = true;
  pipe_out = true;
  fork = true;
  exec = λ path env input. some input;
}

site-Forks : Forks site
site-Forks = record { pipe_in = refl; pipe_out = refl; fork = refl }

abbrev version : List ℕ
version = codes "HTTP/1.0"

abbrev line_of : List ℕ → List ℕ → List ℕ
line_of m u = request_line m b'/' u version

get_a : IsRequest (codes "GET") b'/' (codes "a") version
get_a = record {
  method_word = refl;
  method_fits = omega arith;
  url_word = refl;
  url_fits = omega arith;
  one_line = refl;
  line_fits = omega arith;
}

get_p : IsRequest (codes "GET") b'/' (codes "p?q") version
get_p = record {
  method_word = refl;
  method_fits = omega arith;
  url_word = refl;
  url_fits = omega arith;
  one_line = refl;
  line_fits = omega arith;
}

post_p : IsRequest (codes "POST") b'/' (codes "p") version
post_p = record {
  method_word = refl;
  method_fits = omega arith;
  url_word = refl;
  url_fits = omega arith;
  one_line = refl;
  line_fits = omega arith;
}

-- One header line, and one that announces two bytes.
abbrev header : List (List ℕ)
header = codes "Host: x" ∷ []

abbrev two_bytes : List (List ℕ)
two_bytes = codes "Content-Length: 2" ∷ []

get_file_example :
    handle_sock 99 site (fresh (request_bytes (line_of (codes "GET") (codes "a")) header []))
    ≡ some (pos 0, record { incoming = []; sent = ok_header ++ codes "hello"; is_open = false })
unfolding local_path
get_file_example =
    get_file 99 site header [] get_a refl (omega arith) (stat_of false false 5) (codes "hello") refl
      refl refl refl refl refl

get_program_example :
    handle_sock 99 site (fresh (request_bytes (line_of (codes "GET") (codes "p?q")) header []))
    ≡ some (pos 0, record { incoming = []; sent = ok_header; is_open = false })
unfolding local_path
get_program_example =
    get_program 99 site header [] get_p refl (omega arith) (codes "/p") (codes "q")
      (stat_of false true 9) site-Forks refl refl refl refl refl

post_program_example :
    handle_sock 99 site (
      fresh
        (request_bytes (line_of (codes "POST") (codes "p")) two_bytes (codes "hi" ++ codes "!")))
    ≡ some (
      pos 0,
      record { incoming = arrive (codes "!"); sent = ok_header ++ codes "hi"; is_open = false },
    )
unfolding local_path content_length atoi digits_value
post_program_example =
    post_program 99 site two_bytes (codes "hi") (codes "!") post_p refl (omega arith)
      (stat_of false true 9) site-Forks refl refl refl refl (λ e. cc)

get_line-chop_example :
    get_line 9 1025 (fresh (codes "ab\r\ncd")) ≡ some (codes "ab\n", fresh (codes "cd"))
unfolding chop
get_line-chop_example = get_line-chop 9 1025 (codes "ab\r\ncd") (fresh []) (omega arith)

get_line_never_returns_example :
    get_line 1000 1025
      (record { incoming = byte b'G' ∷ fault ∷ byte b'E' ∷ []; sent = []; is_open = true })
    ≡ none
get_line_never_returns_example =
    get_line_never_returns 1000 1025
      (record { incoming = byte b'G' ∷ fault ∷ byte b'E' ∷ []; sent = []; is_open = true }) refl
      (omega arith)

clean_hander-header_example :
    clean_hander 40 (fresh (codes "Host: x\r\n\r\nbody")) ≡ some (tt, fresh (codes "body"))
clean_hander-header_example =
    clean_hander-header 40 header (codes "body") (fresh []) refl (omega arith)

request_words-line_example : request_words (codes "GET /a HTTP/1.0\n") ≡ (codes "GET", codes "/a")
request_words-line_example =
    request_words-line (codes "GET") b'/' (codes "a") (codes "HTTP/1.0\n") refl (omega arith) refl
      (omega arith)

split_query_lem_example :
    (no_query (codes "/p") ≡ true) × (codes "/p?q" ≡ codes "/p" ++ b'?' ∷ codes "q") × (true ≡ true)
unfolding split_query
split_query_lem_example = split_query_lem (codes "/p?q")

parse_request_fits_example : (3 < 255) × (2 < 255) × (0 < 255) × (9 + 12 ≤ 1024)
unfolding parse_request request_words copy_method skip_blanks copy_url split_query local_path
parse_request_fits_example =
    parse_request_fits (codes "get /a HTTP/1.0\n")
      {r = record {
        method = codes "get";
        url = codes "/a";
        query = [];
        cgi = false;
        path = codes "wwwroot/a";
      }}
      refl
