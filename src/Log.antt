-- ===== src/Log.antt =====
-- log.cpp: what `log` writes to the file and prints. A line is its level and its text; the time and
-- the number of the process in front of it are left out.
pub mod Lines
use tin_serwer.Base.{
  ℕ, Bool, true, false, List, [], ◌∷◌, ◌++◌, if◌then◌else◌, leb, Outcome, ok, fault, ◌>>=◌,
  dangling_pointer, null_pointer,
}

abbrev pub Line : Type 0
Line = ℕ × List ℕ

-- `logfile`: null, a file with the lines that were written, or a file that was closed.
pub data Logfile : Type 0 where
  no_file : Logfile
  opened : List Line → Logfile
  closed : List Line → Logfile

-- The two variables, and what was printed.
pub record Log : Type 0 where
  pub verbosity : ℕ
  pub logfile : Logfile
  pub printed : List Line

-- The first half of `log`: writing to a file that was closed is undefined.
unfoldable pub write_line : Line → Logfile → Outcome Logfile
write_line line no_file = ok no_file
write_line line (opened lines) = ok (opened (lines ++ line ∷ []))
write_line line (closed lines) = fault dangling_pointer

-- `log`
unfoldable pub log : ℕ → List ℕ → Log → Outcome Log
log level text l = write_line (level, text) l.logfile >>= λ logfile. ok (record l {
  logfile = logfile;
  printed = if leb level l.verbosity then l.printed ++ (level, text) ∷ [] else l.printed;
})

-- `initLog`, where `opens` is whether `fopen` opens the file, and `failed` and `succeed` are the
-- texts: whether the program goes on.
unfoldable pub init_log : Bool → ℕ → List ℕ → List ℕ → Log → Outcome (Bool × Log)
init_log true verbo failed succeed l =
    log 3 succeed (record l { verbosity = verbo; logfile = opened [] }) >>= λ l. ok (true, l)
init_log false verbo failed succeed l =
    log 1 failed (record l { verbosity = verbo; logfile = no_file }) >>= λ l. ok (false, l)

-- `logClose`: the variable still points at the file.
unfoldable pub log_close : Log → Outcome Log
log_close l = elim l.logfile [
  | no_file ↦ fault null_pointer
  | opened lines ↦ ok (record l { logfile = closed lines })
  | closed lines ↦ fault dangling_pointer
]

-- Calls of `log`, one after another.
unfoldable pub log_all : List Line → Log → Outcome Log
log_all [] l = ok l
log_all ((level, text) ∷ lines) l = log level text l >>= log_all lines
