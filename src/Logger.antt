-- ===== src/Logger.antt =====
-- TCP_SensorMonitoringSystem/project/sensor_db.c, the logger process: the messages that the gateway
-- writes to the pipe, and the child process that copies the pipe to gateway.log.
pub mod Messages
pub mod Child
pub mod Lines
mod Tests
use osc_server.Base.{ℕ, ◌+◌, List, [], ◌∷◌, ◌++◌, Bool, true, false, ◌==◌, take, if◌then◌else◌}
use osc_server.Base.Int.{ℤ, pos, negsuc, is_zero}
use osc_server.Base.Text.{Text, codes, decimal}
use osc_server.Memory.{Cmd, pure, undefined, exit_if, ◌>>=◌, ◌>>◌}

-- The globals of the gateway, and the bytes that stand in the pipe or have been read from it.
pub record LogProcess : Type 0 where
  pub logger_pid : ℤ
  pub sequence_number : ℕ
  pub pipe : Text

abbrev pub buffer_size : ℕ
buffer_size = 256

abbrev int_max : ℕ
int_max = 2147483647

-- `snprintf` into a buffer of 256 bytes leaves what fits before the final zero.
abbrev pub fits : Text → Text
fits msg = take 255 msg

-- `ctime` without its line end, for a clock value, is `date`.
module _ (date : ℕ → Text) where
  -- `"%d - %s - %s"`
  abbrev pub formatted : (sequence now : ℕ) → Text → Text
  formatted sequence now msg =
      fits (decimal sequence ++ codes " - " ++ date now ++ codes " - " ++ msg)

  -- `sequence_number++`, whose overflow is undefined.
  next_sequence : Cmd LogProcess ℕ
  next_sequence s =
      if s.sequence_number == int_max
      then undefined s
      else pure s.sequence_number (record s { sequence_number = s.sequence_number + 1 })

  -- `now` is the clock, and `written` whether `write` takes the bytes.
  pub write_to_log_process : (now : ℕ) (written : Bool) (msg : Text) → Cmd LogProcess (Unit {0})
  unfolding next_sequence
  write_to_log_process now written msg s =
      (do
        exit_if (is_zero s.logger_pid)
        sequence ← next_sequence
        if written
            then (λ t. pure tt (record t { pipe = t.pipe ++ formatted sequence now msg }))
            else exit_if true)
        s

abbrev is_minus_one : ℤ → Bool
is_minus_one (pos n) = false
is_minus_one (negsuc n) = n == 0

-- `pipe` and `fork` in the parent; the child runs `Logger.Child.logger_loop`.
pub create_log_process : (pipe_result : ℤ) (pid : ℤ) → Cmd LogProcess (Unit {0})
create_log_process pipe_result pid = do
  exit_if (is_minus_one pipe_result)
  exit_if (is_minus_one pid)
  λ s. pure tt (record s { logger_pid = pid; pipe = [] })

-- `close` and `waitpid` after the last message; one second in between lets the child catch up.
pub end_log_process :
    (date : ℕ → Text) (now : ℕ) (written : Bool) (close_result wait_result : ℤ)
    → Cmd LogProcess (Unit {0})
unfolding write_to_log_process
end_log_process date now written close_result wait_result = do
  write_to_log_process date now written (codes "ending log process.\n")
  if is_minus_one close_result then pure tt else exit_if (is_minus_one wait_result)
