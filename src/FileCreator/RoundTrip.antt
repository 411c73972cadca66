-- ===== src/FileCreator/RoundTrip.antt =====
-- The files that file_creator.c writes are read back as they were meant.
use osc_server.Base.{
  ℕ, zero, suc, ◌%◌, ◌^◌, ◌<◌, ◌≡◌, refl, ap, sym, ◌∙◌, arith, none, some, List, [], ◌∷◌, ◌++◌,
  true, false, length,
}
use mathlib.Core.List.{append_assoc, append-nil}
use osc_server.Base.Text.{Text, codes, decimal, decimal-first}
use osc_server.Base.Digits.{is_digit, is_space, scan_digits, scan_digits-decimal}
use osc_server.FileCreator.{
  map_line, map_text, skip_space, starts_with_digit, scan_short, scan_entry, scan_map,
}

abbrev AllSpace : Text → Type 0
AllSpace [] = Unit {0}
AllSpace (c ∷ cs) = (is_space c ≡ true) × AllSpace cs

skip_space-append :
    (lead : Text) (d : ℕ) (rest : Text)
    → AllSpace lead
    → is_space d ≡ false
    → skip_space (lead ++ d ∷ rest) ≡ d ∷ rest
unfolding skip_space
skip_space-append [] d rest all other = rw other refl
skip_space-append (c ∷ lead) d rest (one, all) other =
    rw one (skip_space-append lead d rest all other)

skip_space-all : (lead : Text) → AllSpace lead → skip_space lead ≡ []
unfolding skip_space
skip_space-all [] all = refl
skip_space-all (c ∷ lead) (one, all) = rw one (skip_space-all lead all)

scan_short-decimal :
    (lead : Text) (n c : ℕ) (rest : Text)
    → AllSpace lead
    → n < 2 ^ 16
    → is_digit c ≡ false
    → scan_short (lead ++ (decimal n ++ c ∷ rest)) ≡ some (n, c ∷ rest)
unfolding scan_short starts_with_digit
scan_short-decimal lead n c rest all fits other =
    let (d, more, e, low, high) = decimal-first n in
    let printed : decimal n ++ c ∷ rest ≡ d ∷ (more ++ c ∷ rest) = ap (λ t. t ++ c ∷ rest) e in
    let no_space : is_space d ≡ false = ground arith in
    let digit : is_digit d ≡ true = ground arith in
    let scanned = scan_digits-decimal n c rest other in
    let small : n % 2 ^ 16 ≡ n = omega (arith, fits) in
    let from =
      ap (λ t. skip_space (lead ++ t)) printed
      ∙ skip_space-append lead d (more ++ c ∷ rest) all no_space in
    rw (from, digit, ap (scan_digits 0) (sym printed) ∙ scanned, small) refl

scan_short-space : (lead : Text) → AllSpace lead → scan_short lead ≡ none
unfolding scan_short starts_with_digit
scan_short-space lead all = rw (skip_space-all lead all) refl

-- The ids fit the width of the fields.
abbrev pub AllShort : List (ℕ × ℕ) → Type 0
AllShort [] = Unit {0}
AllShort ((room, sensor) ∷ entries) = (room < 2 ^ 16) × (sensor < 2 ^ 16) × AllShort entries

scan_entry_two :
    (text : Text) (room sensor : ℕ) (rest rest' : Text)
    → scan_short text ≡ some (room, rest)
    → scan_short rest ≡ some (sensor, rest')
    → scan_entry text ≡ some ((room, sensor), rest')
unfolding scan_entry
scan_entry_two text room sensor rest rest' first second = rw (first, second, scan_entry) refl

scan_entry-map_line :
    (lead : Text) (room sensor : ℕ) (rest : Text)
    → AllSpace lead
    → room < 2 ^ 16
    → sensor < 2 ^ 16
    → scan_entry (lead ++ (map_line (room, sensor) ++ rest)) ≡ some ((room, sensor), 10 ∷ rest)
scan_entry-map_line lead room sensor rest all small_room small_sensor =
    let line = append_assoc (decimal room) (codes " " ++ (decimal sensor ++ codes "\n")) rest in
    let second = append_assoc (decimal sensor) (codes "\n") rest in
    let whole : lead ++ (map_line (room, sensor) ++ rest)
        ≡ lead ++ (decimal room ++ 32 ∷ (decimal sensor ++ 10 ∷ rest)) =
      ap (λ t. lead ++ t) (line ∙ ap (λ t. decimal room ++ 32 ∷ t) second) in
    ap scan_entry whole
    ∙ scan_entry_two _ room sensor (32 ∷ (decimal sensor ++ 10 ∷ rest)) (10 ∷ rest)
        (scan_short-decimal lead room 32 (decimal sensor ++ 10 ∷ rest) all small_room refl)
        (scan_short-decimal (32 ∷ []) sensor 10 rest (refl, tt) small_sensor refl)

scan_map_step :
    (fuel : ℕ) (text : Text) (entry : ℕ × ℕ) (rest : Text)
    → scan_entry text ≡ some (entry, rest)
    → scan_map (suc fuel) text ≡ entry ∷ scan_map fuel rest
unfolding scan_map
scan_map_step fuel text entry rest e = rw (e, scan_map) refl

scan_map_end : (fuel : ℕ) (lead : Text) → AllSpace lead → scan_map fuel lead ≡ []
unfolding scan_map scan_entry
scan_map_end zero lead all = refl
scan_map_end (suc fuel) lead all = rw (scan_short-space lead all, scan_map, scan_entry) refl

scan_map-lead :
    (entries : List (ℕ × ℕ)) (fuel : ℕ) (lead : Text)
    → AllSpace lead
    → AllShort entries
    → length entries < fuel
    → scan_map fuel (lead ++ map_text entries) ≡ entries
unfolding map_text
scan_map-lead entries zero lead all small enough = absurd (omega arith)
scan_map-lead [] (suc fuel) lead all small enough =
    ap (scan_map (suc fuel)) (append-nil lead) ∙ scan_map_end (suc fuel) lead all
scan_map-lead ((room, sensor) ∷ entries) (suc fuel) lead all (small_room, small_sensor, small)
      enough =
    scan_map_step fuel (lead ++ map_text ((room, sensor) ∷ entries)) (room, sensor)
      (10 ∷ map_text entries)
      (scan_entry-map_line lead room sensor (map_text entries) all small_room small_sensor)
    ∙ ap (λ l. (room, sensor) ∷ l)
        (scan_map-lead entries fuel (10 ∷ []) (refl, tt) small (omega arith))

-- The data manager reads from room_sensor.map exactly the entries that file_creator.c wrote, in
-- order, for any ids of 16 bits.
pub scan_map-map_text :
    (entries : List (ℕ × ℕ)) (fuel : ℕ)
    → AllShort entries
    → length entries < fuel
    → scan_map fuel (map_text entries) ≡ entries
scan_map-map_text entries fuel small enough = scan_map-lead entries fuel [] tt small enough
