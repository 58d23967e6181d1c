-- ===== src/Log/Lines.antt =====
-- What a run of the program leaves in its log file and prints (log.cpp).
use tin_serwer.Base.{
  ℕ, ◌≡◌, refl, ap, ◌∙◌, true, List, [], ◌∷◌, ◌++◌, if◌then◌else◌, leb, ok, ◌>>=◌, Bool-cases, inl,
  inr, append_assoc, append-nil,
}
use tin_serwer.Log.{Line, Log, opened, closed, write_line, log, init_log, log_all, log_close}

-- The lines up to a level.
abbrev pub up_to : ℕ → List Line → List Line
up_to verbosity [] = []
up_to verbosity ((level, text) ∷ lines) =
    if leb level verbosity then (level, text) ∷ up_to verbosity lines else up_to verbosity lines

-- What the log is after the lines, where it has `before` in its file and `shown` on the screen.
abbrev pub written_to : ℕ → List Line → List Line → List Line → Log
written_to verbosity before shown lines = record {
  verbosity = verbosity;
  logfile = opened (before ++ lines);
  printed = shown ++ up_to verbosity lines;
}

log_all-opened :
    (verbosity : ℕ) (before shown lines : List Line)
    → log_all lines (record { verbosity = verbosity; logfile = opened before; printed = shown })
      ≡ ok (written_to verbosity before shown lines)
unfolding log_all log write_line
log_all-opened verbosity before shown [] = rw (append-nil before, append-nil shown) refl
log_all-opened verbosity before shown ((level, text) ∷ lines) =
    elim (Bool-cases (leb level verbosity)) [
      | inl le ↦ rw le (
          log_all-opened verbosity (before ++ (level, text) ∷ []) (shown ++ (level, text) ∷ [])
            lines
          ∙ rw
              (
                append_assoc before ((level, text) ∷ []) lines,
                append_assoc shown ((level, text) ∷ []) (up_to verbosity lines),
              )
              refl)
      | inr gt ↦ rw gt (
          log_all-opened verbosity (before ++ (level, text) ∷ []) shown lines
          ∙ rw (append_assoc before ((level, text) ∷ []) lines) refl)
    ]

-- From `initLog` with a file that opens to `logClose`: no call of `log` in between faults, the file
-- has the line of `initLog` and then every line, whatever its level, and exactly those up to the
-- verbosity were printed, in the same order.
pub log_run :
    (verbosity : ℕ) (failed succeed : List ℕ) (lines : List Line) (l : Log)
    → (init_log true verbosity failed succeed l >>= λ r. log_all lines r.1 >>= log_close)
      ≡ ok (record {
        verbosity = verbosity;
        logfile = closed ((3, succeed) ∷ lines);
        printed = l.printed ++ up_to verbosity ((3, succeed) ∷ lines);
      })
unfolding init_log log_all log write_line log_close
log_run verbosity failed succeed lines l =
    ap (λ m. m >>= log_close) (log_all-opened verbosity [] l.printed ((3, succeed) ∷ lines))
