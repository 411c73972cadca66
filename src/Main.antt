-- ===== src/Main.antt =====
-- TCP_SensorMonitoringSystem/project/main.c: the checks of the arguments, and the order in which the
-- parts start and end. The result is the exit status and what was done, in order.
pub mod Arguments
mod Tests
use osc_server.Base.{
  ℕ, zero, suc, ◌+◌, ◌-◌, ◌*◌, ◌^◌, ◌%◌, List, [], ◌∷◌, ◌++◌, Bool, true, false, not, ◌&&◌, ◌||◌,
  ltb, leb, ◌==◌, if◌then◌else◌,
}
use osc_server.Base.Int.{ℤ, pos, negsuc, nonpos, ltb_ℤ}
use osc_server.Base.Text.{Text, codes}
use osc_server.Base.Digits.{is_space, digits_value}
use osc_server.Config.{ConnmgrArgs}

-- A call of another part.
pub data Action : Type 0 where
  init_buffer create_log_process storage_started datamgr_started : Action
  log : Text → Action
  connmgr_started : ConnmgrArgs → Action
  all_joined free_buffer end_log_process : Action

pub data Status : Type 0 where
  exit_success exit_failure : Status

abbrev negated : ℕ → ℤ
negated zero = pos zero
negated (suc n) = negsuc n

abbrev pub signed_value : Text → ℤ
signed_value [] = pos 0
signed_value (c ∷ cs) =
    if c == b'-'
    then negated (digits_value 0 cs)
    else if c == b'+'
    then pos (digits_value 0 cs)
    else pos (digits_value 0 (c ∷ cs))

-- A `long` that `strtol` gives, whose value stops at the ends of its range, as an int: its low 32
-- bits with their sign.
abbrev pub to_int : ℤ → ℤ
to_int (pos n) =
    let low : ℕ = (if ltb n (2 ^ 63) then n else 2 ^ 63 - 1) % 2 ^ 32 in
    if ltb low (2 ^ 31) then pos low else negsuc (2 ^ 32 - 1 - low)
to_int (negsuc n) =
    let low : ℕ = (if ltb n (2 ^ 63) then n else 2 ^ 63 - 1) % 2 ^ 32 in
    if ltb low (2 ^ 31) then negsuc low else pos (2 ^ 32 - 1 - low)

-- `atoi`, as `strtol` converted to an int.
unfoldable pub atoi : Text → ℤ
atoi [] = pos 0
atoi (c ∷ cs) = let rest = atoi cs in if is_space c then rest else to_int (signed_value (c ∷ cs))

abbrev to_args : ℤ → ℤ → ConnmgrArgs
to_args (pos p) (pos m) = record { port = p; max_conn = m }
to_args (pos p) (negsuc m) = record { port = p; max_conn = 0 }
to_args (negsuc p) (pos m) = record { port = 0; max_conn = m }
to_args (negsuc p) (negsuc m) = record { port = 0; max_conn = 0 }

-- Once the arguments are checked. `allocated` is whether `malloc` found memory, `created` whether
-- the thread of the connection manager started; the results of the other two are ignored.
run_threads : (allocated created : Bool) (port max_conn : ℤ) → Status × List Action
run_threads false created port max_conn =
    (exit_failure, log (codes "Port and Connections defined\n") ∷ [])
run_threads true false port max_conn =
    (exit_failure, log (codes "Port and Connections defined\n") ∷ [])
run_threads true true port max_conn = (
  exit_success,
  log (codes "Port and Connections defined\n")
      ∷ connmgr_started (to_args port max_conn)
      ∷ storage_started
      ∷ datamgr_started
      ∷ log (codes "Waiting for threads to join\n")
      ∷ all_joined
      ∷ log (codes "Threads joined\n")
      ∷ free_buffer
      ∷ end_log_process
      ∷ [],
)

checked : (allocated created : Bool) (port max_conn : ℤ) → Status × List Action
unfolding run_threads
checked allocated created port max_conn =
    if nonpos port || ltb_ℤ (pos 65535) port
    then (exit_failure, [])
    else if nonpos max_conn
    then (exit_failure, [])
    else run_threads allocated created port max_conn

-- The command line without the program's own name.
parsed : (allocated created : Bool) → List Text → Status × List Action
unfolding checked
parsed allocated created [] = (exit_failure, [])
parsed allocated created (port ∷ []) = (exit_failure, [])
parsed allocated created (port ∷ max_conn ∷ []) =
    checked allocated created (atoi port) (atoi max_conn)
parsed allocated created (port ∷ max_conn ∷ extra ∷ more) = (exit_failure, [])

-- The buffer and the logger process start before the arguments are looked at.
unfoldable pub main : (allocated created : Bool) (arguments : List Text) → Status × List Action
unfolding parsed
main allocated created arguments =
    let (status, actions) = parsed allocated created arguments in
    (status, init_buffer ∷ create_log_process ∷ actions)
