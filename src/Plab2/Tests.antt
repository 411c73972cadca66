-- ===== src/Plab2/Tests.antt =====
-- The programs of the second lab at their own inputs.
use osc_server.Base.{ℕ, ◌≡◌, refl, true, [], ◌∷◌, ◌++◌, arith}
use osc_server.Base.Int.{pos}
use osc_server.Base.Text.{Text, codes, decimal}
use osc_server.Memory.{ok}
use osc_server.Plab2.Exercise1
use osc_server.Plab2.Gateway.{main_records, session}
use osc_server.Plab2.Gateway.Rows.{always, lines, gateway, rows, session_messages, session-files}
use osc_server.Plab2.ReverseCase.{swapped, reverse_case, child_output, message}

hi_there : child_output message ≡ codes "Child Process Output: hI tHERE\n"
unfolding child_output reverse_case swapped
hi_there = refl

abbrev noon : ℕ → Text
noon t = codes "noon"

steady : ℕ → ℕ
steady n = 1700000000

session-files_example :
    session noon steady always decimal
      (pos 0)
      (pos 99)
      true
      true
      (pos 0)
      (pos 99)
      (main_records 1 2 3 8)
      (gateway (pos 0) 0 [] (codes "1, 5.0, 7\n"))
    ≡ ok (pos 0) (
        gateway
          (pos 99)
          10
          ([] ++ lines noon steady 0 (session_messages (main_records 1 2 3 8)))
          (codes "1, 5.0, 7\n" ++ rows noon steady decimal (main_records 1 2 3 8)))
session-files_example =
    session-files noon steady decimal (pos 0) (pos 0) (pos 99) (pos 0) (pos 99) true
      (main_records 1 2 3 8) 0 [] (codes "1, 5.0, 7\n") refl refl refl refl refl (omega arith)

-- The exercise appends to its file.
two_rows :
    Exercise1.main
      (λ v. codes "0.001000")
      true
      true
      7
      8
      0
      0
      (pos 0)
      (record { data_file = codes "old\n"; printed = [] })
    ≡ ok (pos 0) (record {
      data_file = codes "old\n1, 0.001000, 7\n2, 0.001000, 8\n";
      printed = codes "File Closed Succesfully\n" ∷ [];
    })
unfolding decimal
two_rows =
    (Exercise1.main-rows (λ v. codes "0.001000") true 7 8 0 0 (pos 0)
      (record { data_file = codes "old\n"; printed = [] })).0
