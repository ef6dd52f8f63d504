-- ===== src/Httpd/Handle/Failing.antt =====
-- Runs of `HandleSock` of http/httpd.c that do not answer with a file or a program.
use network_code.Base.{
  ℕ, ◌<◌, ◌≡◌, refl, ap, ℤ, pos, negsuc, true, false, none, some, List, [], ◌∷◌, ◌++◌, arith,
  length, take,
}
use network_code.Httpd.Socket.{arrive}
use network_code.Httpd.Line.{clean_hander}
use network_code.Httpd.Line.Chop.{plain, bytes_of}
use network_code.Httpd.Line.Header.{all_header_lines, header_bytes, clean_hander_never_returns}
use network_code.Httpd.Cgi.{excu_cgi}
use network_code.Httpd.Cgi.Post.{announced, post_header-announced}
use network_code.Httpd.Request.{is_get, is_post, local_path}
use network_code.Httpd.Request.Line.{
  request_line, IsRequest, parse_post, parse_other, is_post-not_get,
}
use network_code.Httpd.Host.{Host, Stat}
use network_code.Httpd.Reply.{ok_header, not_found_page, size_of, echo_code}
use network_code.Httpd.Handle.{serve_file, serve, handle_sock}
use network_code.Httpd.Handle.Read.{request_bytes, fresh, request_read, header_read, header_fuel}

-- What `echo_code` sends.
abbrev pub page : Host → List ℕ
page h = elim (h.open_file not_found_page) [
  | none ↦ []
  | some file ↦ ok_header ++ take (size_of h (h.stat not_found_page)) file
]

abbrev pub page_result : Host → ℤ
page_result h = elim (h.open_file not_found_page) [ none ↦ negsuc 1 | some file ↦ pos 0 ]

bytes_of-arrive : (bs : List ℕ) → bytes_of (arrive bs) ≡ bs
bytes_of-arrive [] = refl
bytes_of-arrive (b ∷ bs) = ap (λ (l : List ℕ). b ∷ l) (bytes_of-arrive bs)

-- Nothing is left that `clean_hander` could stop at.
abbrev pub NoHeaderLeft : List ℕ → Type 0
NoHeaderLeft body = (plain body ≡ true) × (length body < 1022)

no_second_header :
    (fuel : ℕ) (body out : List ℕ)
    → NoHeaderLeft body
    → clean_hander fuel (record { incoming = arrive body; sent = out; is_open = true }) ≡ none
no_second_header fuel body out left =
    clean_hander_never_returns fuel (record { incoming = arrive body; sent = out; is_open = true })
      (rw (bytes_of-arrive body) left.0) (rw (bytes_of-arrive body) left.1)

module _ (fuel : ℕ) (h : Host) {m : List ℕ} {c : ℕ} {u version : List ℕ} (ws : List (List ℕ))
    (body : List ℕ) (q : IsRequest m c u version) (ok : all_header_lines ws ≡ true)
    (enough : length (request_bytes (request_line m c u version) ws body) < fuel) where
  abbrev bytes : List ℕ
  bytes = request_bytes (request_line m c u version) ws body

  -- `echo_code` consumes the header, sends the page, and leaves the body.
  pub echo_code-header :
      echo_code fuel h (fresh (header_bytes ws body))
      ≡ some (page_result h, record { incoming = arrive body; sent = page h; is_open = true })
  unfolding echo_code
  echo_code-header = ground (arith, header_read fuel ws body q ok enough)

  -- A method that is neither GET nor POST: the page is sent with status 200, -1 is returned, and
  -- the socket stays open, as no caller closes it.
  other_method :
      is_get m ≡ false
      → is_post m ≡ false
      → handle_sock fuel h (fresh bytes)
        ≡ some (negsuc 0, record { incoming = arrive body; sent = page h; is_open = true })
  unfolding handle_sock
  other_method g p =
      ground (arith, request_read fuel ws body q ok enough, parse_other q g p, echo_code-header)

  -- A POST request for an existing file whose header announces no length, or the length 0: the
  -- header is read, then `echo_code` waits for another one; if the client sends no further line,
  -- the handler never returns, with any fuel that is more than the length of the request.
  post_empty_never_returns :
      (st : Stat)
      → is_post m ≡ true
      → h.stat (local_path (c ∷ u)) ≡ some st
      → announced (pos 0) ws ≡ pos 0
      → NoHeaderLeft body
      → handle_sock fuel h (fresh bytes) ≡ none
  unfolding handle_sock serve serve_file excu_cgi echo_code
  post_empty_never_returns st p found zero_length left = ground (
    arith,
    request_read fuel ws body q ok enough,
    parse_post q p,
    is_post-not_get m p,
    found,
    post_header-announced fuel ws body (fresh []) ok (header_fuel fuel ws body q ok enough),
    zero_length,
    no_second_header fuel body [] left,
  )
