-- ===== src/Plab2/Exercise1.antt =====
-- plab_1-4_solutions/startcodeplab2/ex1: sensor_db.c and main.c, a .csv file without a logger. `six` is
-- what `%lf` prints; the results of the calls of the C library are arguments.
use osc_server.Base.{
  ℕ, ◌≡◌, refl, Bool, true, false, List, [], ◌∷◌, ◌++◌, Option, none, some, length, if◌then◌else◌,
  ap,
}
use mathlib.Core.List.{append_assoc}
use osc_server.Base.Int.{ℤ, pos, negsuc, is_zero}
use osc_server.Base.Text.{Text, codes, decimal}
use osc_server.Memory.{Cmd, ok, fault, pure, ◌>>=◌, ◌>>◌}
use osc_server.Config.{SensorData}
use osc_server.Storage.{long_decimal}

-- The bytes of sensor_db.csv and what was printed.
pub record Exercise : Type 0 where
  pub data_file : Text
  pub printed : List Text

-- `FILE *`, NULL or the file.
abbrev pub File : Type 0
File = Option (Unit {0})

abbrev print : Text → Cmd Exercise (Unit {0})
print line s = ok tt (record s { printed = s.printed ++ line ∷ [] })

pub open_db : (append opened : Bool) → Cmd Exercise File
open_db append false s = ok none s
open_db append true s = ok (some tt) (if append then s else record s { data_file = [] })

-- What `fclose` gives.
pub close_db : (close_result : ℤ) → File → Cmd Exercise ℤ
close_db close_result none = do
  print (codes "ERROR: close_db() called with NULL pointer\n")
  pure (negsuc 0)
close_db close_result (some f) = do
  print (
      if is_zero close_result
      then codes "File Closed Succesfully\n"
      else codes "ERROR: close_db() failed \n")
  pure close_result

module _ (six : ℕ → Text) where
  abbrev pub sensor_row : SensorData → Text
  sensor_row d =
      decimal d.id
      ++ (codes ", " ++ (six d.value ++ (codes ", " ++ (long_decimal d.ts ++ codes "\n"))))

  -- `fprintf` to NULL is undefined; its result is the number of bytes, or below 0.
  pub insert_sensor : (written : Bool) → File → SensorData → Cmd Exercise ℤ
  insert_sensor written none d s = fault
  insert_sensor true (some f) d s =
      ok (pos (length (sensor_row d))) (record s { data_file = s.data_file ++ sensor_row d })
  insert_sensor false (some f) d s = ok (negsuc 0) s

  -- The clock is read for each of the two records, whose values are 0.001 and 0.002.
  pub main :
      (opened written : Bool) (first second : ℕ) (thousandth two_thousandths : ℕ) (close_result : ℤ)
      → Cmd Exercise ℤ
  unfolding open_db insert_sensor close_db
  main opened written first second thousandth two_thousandths close_result = do
    f ← open_db true opened
    insert_sensor written f (record { id = 1; value = thousandth; ts = first })
    insert_sensor written f (record { id = 2; value = two_thousandths; ts = second })
    close_db close_result f
    pure (pos 0)

  -- If the file opens and takes the rows, the program leaves what was in it before and the two rows
  -- behind, and prints whether the file closed; its status is 0. If it does not open, the program
  -- writes through NULL.
  pub main-rows :
      (written : Bool) (first second a b : ℕ) (close_result : ℤ) (s : Exercise)
      → (main true true first second a b close_result s
          ≡ ok (pos 0) (record {
            data_file =
                s.data_file
                ++ (sensor_row (record { id = 1; value = a; ts = first })
                    ++ sensor_row (record { id = 2; value = b; ts = second }));
            printed =
                s.printed
                ++ (if is_zero close_result
                    then codes "File Closed Succesfully\n"
                    else codes "ERROR: close_db() failed \n")
                  ∷ [];
          }))
        × (main false written first second a b close_result s ≡ fault)
  unfolding main open_db insert_sensor close_db
  main-rows written first second a b close_result s = (
    ap
        (λ l. ok (pos 0) (record {
          data_file = l;
          printed =
              s.printed
              ++ (if is_zero close_result
                  then codes "File Closed Succesfully\n"
                  else codes "ERROR: close_db() failed \n")
                ∷ [];
        }))
        (append_assoc s.data_file _ _),
    refl,
  )
