-- ===== src/Httpd/Host.antt =====
-- What http/httpd.c asks of the operating system beside the socket: files, pipes, a child process.
-- None of this is code of the repository, so it is a parameter of the handlers.
use network_code.Base.{ℕ, Bool, ◌||◌, Option, List}

-- The fields of `struct stat` that are read.
pub record Stat : Type 0 where
  pub is_dir : Bool
  pub exec_usr : Bool
  pub exec_grp : Bool
  pub exec_oth : Bool
  pub size : ℕ

abbrev pub executable : Stat → Bool
executable st = st.exec_usr || st.exec_grp || st.exec_oth

pub record Host : Type 0 where
  -- `stat(path, &st)`, `none` where it fails
  pub stat : List ℕ → Option Stat
  -- `open(path, O_RDONLY)`, and the bytes that can be read
  pub open_file : List ℕ → Option (List ℕ)
  -- what `st.st_size` holds if `stat` failed
  pub stale_size : ℕ
  -- whether the two calls of `pipe`, and `fork`, succeed
  pub pipe_in : Bool
  pub pipe_out : Bool
  pub fork : Bool
  -- `execl(path, path, NULL)` in a child with these environment strings put in and this standard
  -- input: what the program writes until it closes its output, `none` where the call fails
  pub exec : List ℕ → List (List ℕ) → List ℕ → Option (List ℕ)
