-- ===== src/Logger/Lines.antt =====
-- From the gateway's messages to the lines of gateway.log.
use osc_server.Base.{
  ℕ, suc, ◌+◌, ◌≤◌, ◌<◌, ◌≡◌, refl, Bool, true, false, List, [], ◌∷◌, ◌++◌, arith, ◌==◌, ap, sym,
  ◌∙◌, ◌⊎◌, inl, inr, Bool-cases, length,
}
use mathlib.Core.List.{append-nil, append_assoc}
use osc_server.Base.Int.{is_zero}
use osc_server.Base.Text.{Text, same_text, before_zero, flatten, decimal-first}
use osc_server.Memory.{Cmd, pure, ok, exited, ◌>>◌}
use osc_server.Logger.{LogProcess, formatted, write_to_log_process, int_max}
use osc_server.Logger.Child.{logger_loop, terminator, AllPlain, logger_loop-copies}

module _ (date : ℕ → Text) where
  -- The gateway writes messages one after the other, each at a clock value.
  abbrev pub write_all : List (ℕ × Text) → Cmd LogProcess (Unit {0})
  write_all [] = pure tt
  write_all ((now, msg) ∷ ms) = write_to_log_process date now true msg >> write_all ms

  -- Their lines, numbered from `n`.
  abbrev pub lines : ℕ → List (ℕ × Text) → List Text
  lines n [] = []
  lines n ((now, msg) ∷ ms) = formatted date n now msg ∷ lines (n + 1) ms

  abbrev pub after : LogProcess → List (ℕ × Text) → LogProcess
  after s ms = record s {
    sequence_number = s.sequence_number + length ms;
    pipe = s.pipe ++ flatten (lines s.sequence_number ms);
  }

  write_to_log_process-ok :
      (s : LogProcess) (now : ℕ) (msg : Text)
      → is_zero s.logger_pid ≡ false
      → s.sequence_number < int_max
      → write_to_log_process date now true msg s
        ≡ ok tt (record s {
          sequence_number = s.sequence_number + 1;
          pipe = s.pipe ++ formatted date s.sequence_number now msg;
        })
  unfolding write_to_log_process
  write_to_log_process-ok s now msg ready room =
      let b : (s.sequence_number == int_max) ≡ false = ground arith in rw (ready, b) refl

  -- Messages to a running logger process enter the pipe in order, one line each, numbered
  -- consecutively, if the numbers stay within an int.
  pub write_all-lines :
      (s : LogProcess) (ms : List (ℕ × Text))
      → is_zero s.logger_pid ≡ false
      → s.sequence_number + length ms ≤ int_max
      → write_all ms s ≡ ok tt (after s ms)
  write_all-lines s [] ready room =
      let same : s.sequence_number ≡ s.sequence_number + 0 = omega arith in
      let end = sym (append-nil s.pipe) in
      λ i. ok tt (record s { sequence_number = same i; pipe = end i })
  write_all-lines s ((now, msg) ∷ ms) ready room =
      let line = formatted date s.sequence_number now msg in
      let count : s.sequence_number + 1 + length ms ≡ s.sequence_number + suc (length ms) =
        omega arith in
      rw (write_to_log_process-ok s now msg ready (omega (arith, room))) (
        write_all-lines
          (record s { sequence_number = s.sequence_number + 1; pipe = s.pipe ++ line }) ms ready
          (omega (arith, room))
        ∙ λ i. ok tt (record s {
          sequence_number = count i;
          pipe = append_assoc s.pipe line (flatten (lines (s.sequence_number + 1) ms)) i;
        }))

  -- From an empty pipe, whatever chunks the child reads of the bytes, the log file that it leaves is
  -- the lines in order, if the bytes read are all bytes written, no read has a zero byte or is the
  -- terminating text, and the numbers stay within an int.
  pub gateway_log :
      (s : LogProcess) (ms : List (ℕ × Text)) (chunks more : List Text)
      → is_zero s.logger_pid ≡ false
      → s.sequence_number + length ms ≤ int_max
      → s.pipe ≡ []
      → AllPlain chunks
      → flatten chunks ≡ flatten (lines s.sequence_number ms)
      → (write_all ms s
          ≡ ok tt
              (record s { sequence_number = s.sequence_number + length ms; pipe = flatten chunks }))
        × (logger_loop (chunks ++ [] ∷ more) (record { log_file = []; finished = false })
            ≡ record { log_file = flatten (lines s.sequence_number ms); finished = true })
  gateway_log s ms chunks more ready room fresh plain all_read = (
    write_all-lines s ms ready room
        ∙ (λ i. ok tt (record s {
          sequence_number = s.sequence_number + length ms;
          pipe = fresh i ++ flatten (lines s.sequence_number ms);
        }))
        ∙ (λ i.
            ok tt (record s {
              sequence_number = s.sequence_number + length ms;
              pipe = sym all_read i;
            })),
    logger_loop-copies chunks more [] plain
        ∙ ap (λ f. record { log_file = f; finished = true }) all_read,
  )

  -- A line that the gateway writes is never the text that ends the logger's loop, since it starts
  -- with a number.
  pub formatted-not_terminator :
      (n now : ℕ) (msg : Text)
      → same_text (before_zero (formatted date n now msg)) terminator ≡ false
  formatted-not_terminator n now msg =
      let (d, rest, e, low, high) = decimal-first n in
      let real : (d == 0) ≡ false = ground arith in
      let other : (d == 68) ≡ false = ground arith in rw (e, real, other) refl

-- A message while there is no logger process, or that `write` refuses, ends the program.
pub write_errors :
    (date : ℕ → Text) (s : LogProcess) (now : ℕ) (written : Bool) (msg : Text)
    → (is_zero s.logger_pid ≡ true) ⊎ ((written ≡ false) × (s.sequence_number < int_max))
    → write_to_log_process date now written msg s ≡ exited
unfolding write_to_log_process
write_errors date s now written msg (inl no_process) = rw no_process refl
write_errors date s now written msg (inr (refused, room)) =
    elim (Bool-cases (is_zero s.logger_pid)) [
      | inl no_process ↦ rw no_process refl
      | inr ready ↦
          let b : (s.sequence_number == int_max) ≡ false = ground arith in
          rw (ready, b, refused) refl
    ]
