-- ===== src/StudentSql/Insert.antt =====
-- A form posted to http/testsql/cgi_sql.cpp through http/httpd.c.
use network_code.Base.{
  ℕ, ◌<◌, ◌≡◌, refl, sym, ap, ◌∙◌, pos, Bool, true, not, ◌||◌, Option, none, some, List, [], ◌∷◌,
  ◌++◌, ◌==◌, codes, length, c_str, print_int, print_nat, arith, append-nil, map, to_lower, lt→ltb,
}
use network_code.Base.Decimal.{all, atoi-print_nat_alone, no_nul, c_str-append_nul, c_str-no_nul}
use network_code.Base.Strings.{str_eq_comm}
use network_code.Httpd.Cgi.{cgi_env}
use network_code.Httpd.Request.{is_post}
use network_code.Httpd.Request.Line.{is_post-not_get}
use network_code.CgiAdd.{Outcome, ends, getenv, post_array}
use network_code.CgiAdd.Sum.{read_data-all, zeros}
use network_code.StudentSql.Api.{
  Mysql, init_text, connect_text, close_text, insert, insert_text, values_text, insert_statement,
}
use network_code.StudentSql.Forms.{
  Body, page_ended, split_form, then_close, add_row, add_split, add_known, add_string, exec_add,
  form_main, sql_start, sql_main,
}

-- A character that the loop of `exec_add` leaves as it is.
abbrev pub plain : ℕ → Bool
plain c = not ((c == b'=') || (c == b'&') || (c == 0))

split_form-plain :
    (s t : List ℕ)
    → all plain s ≡ true
    → split_form (s ++ t) ≡ (s ++ (split_form t).0, (split_form t).1)
unfolding split_form
split_form-plain [] t h = refl
split_form-plain (c ∷ s) t h = ground (arith, split_form-plain s t)

plain-no_nul : (s t : List ℕ) → all plain s ≡ true → no_nul (s ++ t) ≡ no_nul t
plain-no_nul [] t h = refl
plain-no_nul (c ∷ s) t h = ground (arith, plain-no_nul s t)

-- A field of a form.
pub record Field : Type 0 where
  pub key : List ℕ
  pub value : List ℕ

abbrev pub IsPlain : Field → Type 0
IsPlain f = (all plain f.key ≡ true) × (all plain f.value ≡ true)

abbrev field_text : Field → List ℕ → List ℕ
field_text f rest = f.key ++ b'=' ∷ (f.value ++ rest)

-- The form with its three fields.
abbrev pub form : Field → Field → Field → List ℕ
form f g h = field_text f (b'&' ∷ field_text g (b'&' ∷ field_text h []))

split_form-field :
    (f : Field) (t : List ℕ)
    → IsPlain f
    → split_form (field_text f t)
      ≡ (field_text f (split_form t).0, (f.value ++ (split_form t).0) ∷ (split_form t).1)
unfolding split_form
split_form-field f t (p, q) =
    rw (split_form-plain f.key (b'=' ∷ (f.value ++ t)) p, split_form-plain f.value t q) refl

split_form-and : (t : List ℕ) → split_form (b'&' ∷ t) ≡ (0 ∷ (split_form t).0, (split_form t).1)
unfolding split_form
split_form-and t = refl

field-no_nul : (f : Field) (t : List ℕ) → IsPlain f → no_nul (field_text f t) ≡ no_nul t
field-no_nul f t (p, q) = plain-no_nul f.key (b'=' ∷ (f.value ++ t)) p ∙ plain-no_nul f.value t q

add_string-known :
    (my : Mysql) (env : List (List ℕ)) (out : List ℕ) (db : my.Db) (k rest : List ℕ) (c : ℕ)
    → add_string my env out db (k ++ c ∷ rest)
      ≡ add_known my (k ++ c ∷ rest) out db (getenv (codes "CONTENT_LENGTH") env)
add_string-known my env out db [] rest c = refl
add_string-known my env out db (b ∷ k) rest c = refl

module _ (f g h : Field) (p : IsPlain f) (q : IsPlain g) (r : IsPlain h) where
  split_form-form :
      (split_form (form f g h)).1
      ≡ (f.value ++ 0 ∷ field_text g (0 ∷ field_text h []))
        ∷ (g.value ++ 0 ∷ field_text h [])
        ∷ (h.value ++ [])
        ∷ []
  unfolding split_form
  split_form-form =
      rw
        (
          split_form-field f (b'&' ∷ field_text g (b'&' ∷ field_text h [])) p,
          split_form-field g (b'&' ∷ field_text h []) q,
          split_form-field h [] r,
        )
        refl

  form-no_nul : no_nul (form f g h) ≡ true
  form-no_nul =
      field-no_nul f (b'&' ∷ field_text g (b'&' ∷ field_text h [])) p
      ∙ field-no_nul g (b'&' ∷ field_text h []) q
      ∙ field-no_nul h [] r

  value_read : (v rest : List ℕ) → all plain v ≡ true → c_str (v ++ 0 ∷ rest) ≡ v
  value_read v rest e =
      c_str-append_nul v rest (ap no_nul (sym (append-nil v)) ∙ plain-no_nul v [] e)

  add_split-form :
      (my : Mysql) (out : List ℕ) (db : my.Db)
      → add_split my out (split_form (form f g h)) db
        ≡ then_close
            (out ++ (init_text my ++ connect_text my))
            (insert my f.value g.value h.value db)
  unfolding add_row
  add_split-form my out db =
      rw
        (
          split_form-form,
          value_read f.value (field_text g (0 ∷ field_text h [])) p.1,
          value_read g.value (field_text h []) q.1,
          c_str-no_nul (h.value ++ []) (plain-no_nul h.value [] r.1),
          append-nil h.value,
        )
        refl

  exec_add-form :
      (my : Mysql) (env : List (List ℕ)) (out : List ℕ) (db : my.Db)
      → length (form f g h) < 1024
      → getenv (codes "CONTENT_LENGTH") env ≡ some (print_nat (length (form f g h)))
      → exec_add my env (post_array (form f g h)) out db
        ≡ then_close
            ((out
                ++ (codes "<p>length="
                    ++ (print_nat (length (form f g h))
                        ++ (codes ",arg=" ++ (form f g h ++ codes "\n<br/>")))))
              ++ (init_text my ++ connect_text my))
            (insert my f.value g.value h.value db)
  unfolding exec_add print_int
  exec_add-form my env out db fits e =
      let (t, z) = zeros (length (form f g h)) fits in
      let text : c_str (post_array (form f g h)) ≡ form f g h =
        ap (λ (l : List ℕ). c_str (form f g h ++ l)) z
        ∙ c_str-append_nul (form f g h) t form-no_nul in
      ap (add_string my env out db) text
      ∙ add_string-known my env out db f.key
          (f.value ++ b'&' ∷ field_text g (b'&' ∷ field_text h [])) b'='
      ∙ ap (add_known my (form f g h) out db) e
      ∙ rw (atoi-print_nat_alone (length (form f g h)) (omega arith)) (add_split-form my _ db)

-- A body that the server forwards is run on as it was posted.
form_main-post :
    {D : Type 0} (start : List ℕ) (body : Body D) (m query : List ℕ) (ch : ℕ) (input : List ℕ)
    (db : D)
    → is_post m ≡ true
    → length input < 1024
    → let env = cgi_env m query (pos (length input)) in
      form_main start body env ch input db ≡ page_ended (body env (post_array input) start db)
unfolding form_main getenv print_int
form_main-post start body m query ch input db p fits = ground (
  arith,
  is_post-not_get m p,
  str_eq_comm (codes "get") (map to_lower m),
  atoi-print_nat_alone (length input),
  read_data-all ch input,
)

length_known :
    (m query : List ℕ) (n : ℕ)
    → is_post m ≡ true
    → getenv (codes "CONTENT_LENGTH") (cgi_env m query (pos n)) ≡ some (print_nat n)
unfolding getenv print_int
length_known m query n p = rw (is_post-not_get m p)

-- What is written for a form before its values are inserted.
abbrev pub start_text : Mysql → Field → Field → Field → List ℕ
start_text my f g h =
    (sql_start
      ++ (codes "<p>length="
          ++ (print_nat (length (form f g h))
              ++ (codes ",arg=" ++ (form f g h ++ codes "\n<br/>")))))
    ++ (init_text my ++ connect_text my)

-- The page, and the data, by what the statement makes of the data.
abbrev pub inserted : (my : Mysql) → Field → Field → Field → my.Db → Option my.Db → Outcome × my.Db
inserted my f g h db none =
    (ends 0 (start_text my f g h ++ (insert_text f.value g.value h.value ++ close_text)), db)
inserted my f g h db (some db') = (
  ends 0 (
      start_text my f g h
      ++ ((insert_text f.value g.value h.value ++ codes "<h1>Insert success</h1><br/>\n")
          ++ close_text)),
  db',
)

insert-fits :
    (my : Mysql) (f g h : Field) (db : my.Db)
    → length (values_text f.value g.value h.value) < 1024
    → then_close (start_text my f g h) (insert my f.value g.value h.value db)
      ≡ inserted my f g h db (my.query (insert_statement f.value g.value h.value) db)
unfolding insert
insert-fits my f g h db fits =
    ground (arith, lt→ltb (length (values_text f.value g.value h.value)) 1024 fits)

-- In the environment and with the input that the server gives it for a POST request, the program gives
-- MySQL one statement, which is `insert_statement` of the three values of the form as they were posted,
-- and ends with code 0. If MySQL takes the statement then the data are what it makes of them, and the
-- page holds the statement and that the insert succeeded; if it refuses it then the data are as before,
-- and the page holds the statement. This is so for all keys and values without '=', '&' and NUL, if both
-- the form and the values with their quotes fit arrays of 1024 bytes.
pub post_inserts :
    (my : Mysql) (m query : List ℕ) (f g h : Field) (ch : ℕ) (db : my.Db)
    → is_post m ≡ true
    → IsPlain f
    → IsPlain g
    → IsPlain h
    → length (form f g h) < 1024
    → length (values_text f.value g.value h.value) < 1024
    → sql_main my (cgi_env m query (pos (length (form f g h)))) ch (form f g h) db
      ≡ page_ended (inserted my f g h db (my.query (insert_statement f.value g.value h.value) db))
unfolding sql_main
post_inserts my m query f g h ch db post p q r fits room =
    form_main-post sql_start (exec_add my) m query ch (form f g h) db post fits
    ∙ ap page_ended (
        exec_add-form f g h p q r my (cgi_env m query (pos (length (form f g h)))) sql_start db fits
          (length_known m query (length (form f g h)) post)
        ∙ insert-fits my f g h db room)
