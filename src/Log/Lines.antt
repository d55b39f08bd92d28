-- ===== src/Log/Lines.antt =====
-- One line of output of src/log.rs, by one hart.
use reedos.Common.{ℕ, ◌≡◌, refl, sym, ap, ◌∙◌, List, [], ◌∷◌, ◌++◌, some, codes}
use mathlib.Core.List.{append_assoc}
use reedos.Mutex.{lock_round}
use reedos.Mutex
use reedos.Uart.{Chip, View, Is16550, latch_access, write_str}
use reedos.Uart
use reedos.Uart.Line.{port, sent, sent-nil, sent-append, write_str-view}
use reedos.Log.{debug, info, warning, error, LogSeverity, prefix, line_end, write_fmt, print, log}

-- The pieces of a text, together.
abbrev pub text : List (List ℕ) → List ℕ
text [] = []
text (piece ∷ pieces) = piece ++ text pieces

-- The severities as they stand in the output.
abbrev pub name : LogSeverity → List ℕ
name debug = codes "DEBUG"
name info = codes "INFO"
name warning = codes "WARN"
name error = codes "ERROR"

prefix-name :
    (severity : LogSeverity) (out : List ℕ)
    → prefix severity ++ out ≡ codes "[" ++ (name severity ++ (codes "] " ++ out))
prefix-name debug out = refl
prefix-name info out = refl
prefix-name warning out = refl
prefix-name error out = refl

text-end : (pieces : List (List ℕ)) → text (pieces ++ line_end ∷ []) ≡ text pieces ++ line_end
text-end [] = refl
text-end (piece ∷ pieces) =
    ap (λ (out : List ℕ). piece ++ out) (text-end pieces)
    ∙ sym (append_assoc piece (text pieces) line_end)

module _ {D : Type 0} (chip : Chip D) (law : Is16550 chip) where
  write_fmt-view :
      (pieces : List (List ℕ)) (d : D)
      → latch_access (law.view d) ≡ 0
      → law.view (write_fmt chip port pieces d) ≡ sent (law.view d) (text pieces)
  unfolding write_fmt
  write_fmt-view [] d latch = sym (sent-nil (law.view d))
  write_fmt-view (piece ∷ pieces) d latch =
      let e = write_str-view chip law piece d latch in
      write_fmt-view pieces (write_str chip port piece d).1 (ap latch_access e ∙ latch)
      ∙ ap (λ (view : View). sent view (text pieces)) e
      ∙ sent-append (law.view d) piece (text pieces)

  print-view :
      (pieces : List (List ℕ)) (d : D)
      → latch_access (law.view d) ≡ 0
      → (d' : D) × (print chip pieces d ≡ some d') × (law.view d' ≡ sent (law.view d) (text pieces))
  unfolding print lock_round Uart.new Mutex.new
  print-view pieces d latch = (write_fmt chip port pieces d, refl, write_fmt-view pieces d latch)

  -- A call of `log!` never waits for its lock, and stores to the transmitter the name of the severity in
  -- brackets, a blank, the text, a carriage return and a line feed, in this order, with no register
  -- changed. The divisor latch is closed.
  pub log-view :
      (severity : LogSeverity) (pieces : List (List ℕ)) (d : D)
      → latch_access (law.view d) ≡ 0
      → (d' : D) × (log chip severity pieces d ≡ some d')
        × (law.view d'
            ≡ sent
                (law.view d)
                (codes "[" ++ (name severity ++ (codes "] " ++ (text pieces ++ 13 ∷ 10 ∷ [])))))
  unfolding log
  log-view severity pieces d latch =
      let (d', run, e) = print-view (prefix severity ∷ pieces ++ line_end ∷ []) d latch in
      (
        d',
        run,
        e
            ∙ ap (λ (out : List ℕ). sent (law.view d) (prefix severity ++ out)) (text-end pieces)
            ∙ ap (sent (law.view d)) (prefix-name severity (text pieces ++ line_end)),
      )
