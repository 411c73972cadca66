-- ===== src/Logger/Tests.antt =====
-- Runs of the logger process, and its theorems at concrete messages.
use osc_server.Base.{ℕ, ◌≡◌, refl, ◌≢◌, true, false, List, [], ◌∷◌, ◌++◌, arith}
use osc_server.Base.Int.{pos}
use osc_server.Base.Text.{Text, codes, decimal, flatten, same_text, before_zero}
use osc_server.Memory.{ok}
use osc_server.Logger.{LogProcess, formatted}
use osc_server.Logger.Messages.{connection_message}
use osc_server.Logger.Child.{logger_loop, terminator, AllPlain}
use osc_server.Logger.Lines.{write_all, lines, gateway_log, formatted-not_terminator}

abbrev noon : ℕ → Text
noon now = codes "Mon"

abbrev running : LogProcess
running = record { logger_pid = pos 12; sequence_number = 3; pipe = [] }

abbrev two_messages : List (ℕ × Text)
two_messages = (100, codes "a\n") ∷ (101, codes "b\n") ∷ []

connection : connection_message 15 ≡ codes "Sensor node 15 has opened a new connection\n"
unfolding decimal
connection = refl

first_line : formatted noon 3 100 (codes "a\n") ≡ codes "3 - Mon - a\n"
unfolding decimal
first_line = refl

-- The reads cut the two lines at other places than their ends.
abbrev two_reads : List Text
two_reads = codes "3 - Mon - a\n4 " ∷ codes "- Mon - b\n" ∷ []

two_reads-AllPlain : AllPlain two_reads
two_reads-AllPlain = ((cons-ne-nil, refl, refl), ((cons-ne-nil, refl, refl), tt))
  where
    cons-ne-nil : {x : ℕ} {xs : Text} → x ∷ xs ≢ []
    cons-ne-nil e = cc

gateway_log_example :
    (write_all noon two_messages running
      ≡ ok tt (record { logger_pid = pos 12; sequence_number = 5; pipe = flatten two_reads }))
    × (logger_loop (two_reads ++ [] ∷ []) (record { log_file = []; finished = false })
        ≡ record { log_file = flatten (lines noon 3 two_messages); finished = true })
unfolding decimal
gateway_log_example =
    gateway_log noon running two_messages two_reads [] refl (omega arith) refl two_reads-AllPlain
      refl

formatted-not_terminator_example :
    same_text (before_zero (formatted noon 7 100 (codes "Data file closed\n"))) terminator ≡ false
formatted-not_terminator_example = formatted-not_terminator noon 7 100 (codes "Data file closed\n")
