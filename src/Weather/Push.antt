-- ===== src/Weather/Push.antt =====
-- weather/wwwroot/cgi/weather_show.cpp: it runs a script and says that the weather was pushed.
use network_code.Base.{ℕ, ◌≡◌, refl, true, List, ◌++◌, codes, Option, none, some, Bool, false}
use network_code.CgiAdd.{Outcome, ends, faults}

-- What becomes of `vfork`: there is no child; the child runs the script, with what this writes, if
-- `waitpid` then gives the child's number or fails; or `execl` fails. In the last case the child writes,
-- and calls `exit`, in the memory of its parent, which `vfork` leaves undefined.
pub data Child : Type 0 where
  no_child : Child
  script : (written : List ℕ) → (waited : Bool) → Child
  no_script : Child

-- `ShowWeather`: its result and what was written; `none` where it is undefined. Without a child `id` is
-- -1, and so is the result of `waitpid`.
unfoldable pub push_weather : Child → Option (ℕ × List ℕ)
push_weather no_child = some (0, codes "weather already push\n")
push_weather (script written true) =
    some (0, codes "Begin execl\n" ++ (written ++ codes "weather already push\n"))
push_weather (script written false) =
    some (1, codes "Begin execl\n" ++ (written ++ codes "exec error\n"))
push_weather no_script = none

-- `method` is never set, so the line shows none and the branch for POST is taken.
abbrev pub push_start : List ℕ
push_start = codes "<html><br/>\n<body background=\"./pika.jpg\"><br/>\nmethod=\n"

abbrev pub pushed : Option (ℕ × List ℕ) → Outcome
pushed none = faults
pushed (some (result, text)) = ends 0 (push_start ++ (text ++ codes "</body><br/>\n</html><br/>\n"))

-- `main`: it ends with 0 whatever `ShowWeather` gives.
unfoldable pub push_main : Child → Outcome
push_main child = pushed (push_weather child)

-- Where no child can be made the page says that the weather was pushed, as where a script that writes
-- nothing was run, but for the line of the child.
pub no_child-pushed :
    push_main no_child
    ≡ ends 0 (push_start ++ codes "weather already push\n</body><br/>\n</html><br/>\n")
unfolding push_main push_weather
no_child-pushed = refl
