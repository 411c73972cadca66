-- ===== src/Config/Packed.antt =====
-- `sensor_data_t` as the bytes of a file or of a connection: two for the id, eight for the value
-- and eight for the time, with nothing between them.
use osc_server.Base.{
  ℕ, zero, suc, true, false, ◌^◌, ◌<◌, ◌≡◌, refl, Option, none, some, List, [], ◌∷◌, ◌++◌, arith,
  ap, ◌∙◌, length, take, drop, map, ltb, if◌then◌else◌,
}
use mathlib.Core.List.{append_assoc}
use osc_server.Base.Bytes.{to_bytes, of_bytes, of_bytes-to_bytes}
use osc_server.Base.Text.{flatten}
use osc_server.Config.{SensorData}

-- The fields of the struct fit their widths.
abbrev pub Fits : SensorData → Type 0
Fits d = (d.id < 256 ^ 2) × (d.value < 256 ^ 8) × (d.ts < 256 ^ 8)

abbrev pub AllFit : List SensorData → Type 0
AllFit [] = Unit {0}
AllFit (d ∷ ds) = Fits d × AllFit ds

abbrev pub record_bytes : SensorData → List ℕ
record_bytes d = to_bytes 2 d.id ++ (to_bytes 8 d.value ++ to_bytes 8 d.ts)

-- The record in the first 18 bytes.
abbrev pub of_record_bytes : List ℕ → SensorData
of_record_bytes bytes = record {
  id = of_bytes (take 2 bytes);
  value = of_bytes (take 8 (drop 2 bytes));
  ts = of_bytes (take 8 (drop 10 bytes));
}

-- `fread(&record, sizeof(sensor_data_t), 1, f)`
unfoldable pub read_record : List ℕ → Option (SensorData × List ℕ)
read_record bytes =
    if ltb (length bytes) 18 then none else some (of_record_bytes bytes, drop 18 bytes)

-- The records that calls of `fread` give until one fails.
unfoldable pub read_records : (fuel : ℕ) → List ℕ → List SensorData
read_records zero bytes = []
read_records (suc fuel) bytes = elim (read_record bytes) [
  | none ↦ []
  | some (d, rest) ↦ d ∷ read_records fuel rest
]

length-record_bytes : (d : SensorData) → length (record_bytes d) ≡ 18
length-record_bytes d = refl

pub read_record-record_bytes :
    (d : SensorData) (rest : List ℕ)
    → Fits d
    → read_record (record_bytes d ++ rest) ≡ some (d, rest)
unfolding read_record
read_record-record_bytes d rest (id, value, ts) =
    let enough : ltb (length (record_bytes d ++ rest)) 18 ≡ false = ground arith in
    rw enough (λ i. some (
      record {
        id = of_bytes-to_bytes 2 d.id id i;
        value = of_bytes-to_bytes 8 d.value value i;
        ts = of_bytes-to_bytes 8 d.ts ts i;
      },
      rest,
    ))

read_record_short : (bytes : List ℕ) → length bytes < 18 → read_record bytes ≡ none
unfolding read_record
read_record_short bytes h = let short : ltb (length bytes) 18 ≡ true = ground arith in rw short refl

read_records_step :
    (fuel : ℕ) (bytes : List ℕ) (d : SensorData) (rest : List ℕ)
    → read_record bytes ≡ some (d, rest)
    → read_records (suc fuel) bytes ≡ d ∷ read_records fuel rest
unfolding read_records
read_records_step fuel bytes d rest e = rw (e, read_records) refl

-- The records that were written one after the other are read back, in order, and no more; a part of
-- a record at the end of the file is not read.
pub read_records-record_bytes :
    (ds : List SensorData) (rest : List ℕ) (fuel : ℕ)
    → AllFit ds
    → length rest < 18
    → length ds < fuel
    → read_records fuel (flatten (map record_bytes ds) ++ rest) ≡ ds
unfolding read_records
read_records-record_bytes ds rest zero fit short enough = absurd (omega arith)
read_records-record_bytes [] rest (suc fuel) fit short enough =
    rw (read_record_short rest short, read_records) refl
read_records-record_bytes (d ∷ ds) rest (suc fuel) (one, fit) short enough =
    let all = flatten (map record_bytes ds) in
    ap (read_records (suc fuel)) (append_assoc (record_bytes d) all rest)
    ∙ read_records_step fuel (record_bytes d ++ (all ++ rest)) d (all ++ rest)
        (read_record-record_bytes d (all ++ rest) one)
    ∙ ap (λ l. d ∷ l) (read_records-record_bytes ds rest fuel fit short (omega arith))
