-- ===== src/CgiAdd.antt =====
-- http/wwwroot/cgi/cgi_add.c: a CGI program that adds two numbers.
pub mod Sum
use network_code.Base.{
  ℕ, zero, suc, ◌+◌, ◌-◌, ◌%◌, ◌^◌, ◌≡◌, refl, ℤ, pos, negsuc, rounds, signed32, pattern32, Option,
  none, some, List, [], ◌∷◌, ◌++◌, ◌==◌, ltb, if◌then◌else◌, length, drop, codes, c_str, case_eq,
  atoi, print_int, replicate, Bool, true, false,
}

-- How the program ends: with an exit code and what it has written, or by an access outside an
-- array, through a null pointer, or of an uninitialised pointer.
pub data Outcome : Type 0 where
  ends : ℕ → List ℕ → Outcome
  faults : Outcome

abbrev pub strip : List ℕ → List ℕ → Option (List ℕ)
strip [] s = some s
strip (c ∷ p) [] = none
strip (c ∷ p) (d ∷ s) = if c == d then strip p s else none

abbrev pub first_value : Option (List ℕ) → Option (List ℕ) → Option (List ℕ)
first_value none r = r
first_value (some v) r = some v

-- `getenv` in an environment of strings `NAME=value`.
unfoldable pub getenv : List ℕ → List (List ℕ) → Option (List ℕ)
getenv name [] = none
getenv name (s ∷ env) = first_value (strip (name ++ b'=' ∷ []) s) (getenv name env)

-- The loop over `arg`: the rounds left, and the array from index `i` on. The result is what stands
-- before the first '&', and behind it; `none` if there is none, and `v2` stays uninitialised.
unfoldable pub find_amp : ℕ → List ℕ → Option (List ℕ × List ℕ)
find_amp zero arg = none
find_amp (suc n) [] = none
find_amp (suc n) (c ∷ arg) =
    if c == b'&'
    then some ([], arg)
    else elim (find_amp n arg) [ none ↦ none | some (before, after) ↦ some (c ∷ before, after) ]

-- `num1 + num2`
abbrev pub add_int : ℤ → ℤ → ℤ
add_int a b = signed32 ((pattern32 a + pattern32 b) % 2 ^ 32)

-- What is written once the two strings are found: `v1 + 3` and `v2 + 3` point into the array.
unfoldable pub show_sum : List ℕ → List ℕ → List ℕ
show_sum before after =
    c_str (before ++ 0 ∷ after)
    ++ (codes "<br/>\n"
        ++ (c_str after
            ++ (codes "<br/>\n<p>v1+v2="
                ++ (print_int (
                      add_int (atoi (c_str (drop 3 (before ++ 0 ∷ after))))
                        (atoi (c_str (drop 3 after))))
                    ++ codes "<br/>\n"))))

-- `exec_calc`: `out` is what was written before.
unfoldable pub exec_calc : List (List ℕ) → List ℕ → List ℕ → Outcome
exec_calc env arg out = elim (c_str arg) [
  | [] ↦ ends 1 (out ++ codes "<p>not cgi arg<br/>\n")
  | c ∷ s ↦ elim (getenv (codes "CONTENT_LENGTH") env) [
    | none ↦ faults
    | some v ↦ elim (find_amp (rounds (atoi v)) arg) [
      | none ↦ faults
      | some (before, after) ↦ ends 0 (out ++ show_sum before after)
    ]
  ]
]

-- The loop that reads the body: at the end of the input `ch` keeps its value.
unfoldable pub read_data : ℕ → ℕ → List ℕ → List ℕ
read_data zero ch input = []
read_data (suc n) ch [] = ch ∷ read_data n ch []
read_data (suc n) ch (c ∷ input) = c ∷ read_data n c input

-- The array `post_data` of 1024 bytes, which was zero; a string that does not fit is a fault.
abbrev pub post_array : List ℕ → List ℕ
post_array s = s ++ replicate (1024 - length s) 0

abbrev pub page_start : List ℕ
page_start = codes "<html><br/>\n<body background=\"./pika.jpg\"><br/>"

abbrev pub page_end : Outcome → Outcome
page_end faults = faults
page_end (ends zero out) = ends 0 (out ++ codes "</body><br/>\n</html><br/>\n")
page_end (ends (suc n) out) = ends (suc n) out

-- `strcpy(post_data, …)` and the call.
abbrev pub calc_on : List (List ℕ) → List ℕ → Outcome
calc_on env s =
    if ltb (length s) 1024 then page_end (exec_calc env (post_array s) page_start) else faults

-- `main`; `ch` is what the uninitialised variable holds.
unfoldable pub main : List (List ℕ) → ℕ → List ℕ → Outcome
main env ch input = elim (getenv (codes "REQUEST_METHOD") env) [
  | none ↦ ends 1 (page_start ++ codes "<p>method error<br/>\n")
  | some method ↦
      if case_eq (codes "GET") method
      then elim (getenv (codes "QUERY_STRING") env) [ none ↦ faults | some q ↦ calc_on env q ]
      else elim (getenv (codes "CONTENT_LENGTH") env) [
        | none ↦ faults
        | some v ↦ calc_on env (read_data (rounds (atoi v)) ch input)
      ]
]
