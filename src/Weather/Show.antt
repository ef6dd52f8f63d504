-- ===== src/Weather/Show.antt =====
-- weather_server/wwwroot/cgi/weather_show.cpp: a page, and a child that is to run a script.
use network_code.Base.{
  ℕ, rounds, Option, none, some, List, ◌++◌, ltb, if◌then◌else◌, codes, length, c_str, case_eq,
  atoi, print_int,
}
use network_code.CgiAdd.{Outcome, ends, faults, getenv, read_data, post_array}

-- What the parent writes in `ShowWeather`; its test `arg==NULL && *arg=='\0'` never holds, and its
-- result is not read.
unfoldable pub show_weather : List ℕ → List ℕ
show_weather arg =
    codes "<h1>" ++ (c_str arg ++ codes "</h1><br/>\n<h2> Begin Push </h2><br/>exec error\n")

-- What the child writes before its script, and how it ends if `execl` fails. Its output begins with
-- the text that was not flushed before `fork`.
abbrev pub child_text : List ℕ
child_text = codes "<h2> Begin Push </h2><br/><h2>Begin execl</h2><br/>\n"

unfoldable pub failed_child : Outcome
failed_child = ends 1 (child_text ++ codes "<h2>execl error</h2><br/>\n")

abbrev pub page : List ℕ
page = codes "<html><br/>\n<body background=\"./pika.jpg\"><br/>\n"

abbrev pub close_page : List ℕ
close_page = codes "</body><br/>\n</html><br/>\n"

-- `strcpy(post_data, …)` or the loop, and the call; `out` is what was written before.
abbrev pub show_on : List ℕ → List ℕ → Outcome
show_on out s =
    if ltb (length s) 1024
    then ends 0 ((out ++ show_weather (post_array s)) ++ close_page)
    else faults

abbrev pub show_query : List ℕ → Option (List ℕ) → Outcome
show_query out none = faults
show_query out (some q) = show_on out q

abbrev pub show_body : List ℕ → ℕ → List ℕ → Option (List ℕ) → Outcome
show_body out ch input none = faults
show_body out ch input (some v) =
    show_on (out ++ (codes "Content-Length:" ++ (print_int (atoi v) ++ codes "\n")))
      (read_data (rounds (atoi v)) ch input)

-- `main` in the parent.
unfoldable pub weather_main : List (List ℕ) → ℕ → List ℕ → Outcome
weather_main env ch input = elim (getenv (codes "REQUEST_METHOD") env) [
  | none ↦ ends 1 (page ++ codes "<p>method error<br/>\n")
  | some method ↦
      let out = page ++ (codes "method=" ++ (method ++ codes "\n")) in
      if case_eq (codes "GET") method
      then show_query out (getenv (codes "QUERY_STRING") env)
      else show_body out ch input (getenv (codes "CONTENT_LENGTH") env)
]
