-- ===== src/Plab2/Gateway/Rows.antt =====
-- What a session with the database leaves in its two files.
use osc_server.Base.{
  ℕ, suc, ◌+◌, ◌*◌, ◌<◌, ◌≡◌, refl, ap, sym, ◌∙◌, arith, List, [], ◌∷◌, ◌++◌, Bool, true, false,
  some, ◌==◌, ==-ne, length, if◌then◌else◌,
}
use mathlib.Core.List.{append_assoc, append-nil}
use osc_server.Base.Int.{ℤ, pos, is_zero}
use osc_server.Base.Text.{Text, codes}
use osc_server.Memory.{ok}
use osc_server.Config.{SensorData}
use osc_server.Logger.{formatted}
use osc_server.Plab2.Gateway.{
  Gateway, is_minus_one, int_max, create_log_process, write_to_log_process, end_log_process,
  open_db, row, insert_sensor, close_db, insert_all, session,
}

-- The pipe takes every message.
abbrev pub always : ℕ → Bool
always n = true

abbrev pub gateway : (pid : ℤ) (n : ℕ) (pipe file : Text) → Gateway
gateway pid n pipe file = record {
  process = record { logger_pid = pid; sequence_number = n; pipe = pipe };
  data_file = file;
}

-- The two messages of each insertion.
abbrev pub insertions : List (ℕ × SensorData) → List Text
insertions [] = []
insertions (x ∷ ds) =
    codes "Attempting to insert data.\n" ∷ codes "Data inserted.\n" ∷ insertions ds

-- All messages of a session.
abbrev pub session_messages : List (ℕ × SensorData) → List Text
session_messages ds =
    codes "Data file opened.\n" ∷ (insertions ds ++ codes "Data file closed\n" ∷ [])

length-insertions : (ds : List (ℕ × SensorData)) → length (insertions ds) ≡ 2 * length ds
length-insertions [] = refl
length-insertions (x ∷ ds) = omega (arith, length-insertions ds)

module _ (date : ℕ → Text) (clock : ℕ → ℕ) where
  abbrev pub line : ℕ → Text → Text
  line n msg = formatted date n (clock n) msg

  -- The lines of messages, numbered from `n` on.
  abbrev pub lines : (n : ℕ) → List Text → Text
  lines n [] = []
  lines n (msg ∷ msgs) = line n msg ++ lines (n + 1) msgs

  write-line :
      (msg : Text) (pid : ℤ) (n : ℕ) (pipe file : Text)
      → is_zero pid ≡ false
      → n < int_max
      → write_to_log_process date clock always msg (gateway pid n pipe file)
        ≡ ok (pos 0) (gateway pid (n + 1) (pipe ++ line n msg) file)
  unfolding write_to_log_process
  write-line msg pid n pipe file alive small =
      let e : (n == int_max) ≡ false = ==-ne n int_max (λ e. absurd (omega arith)) in
      rw (alive, e) refl

  module _ (six : ℕ → Text) where
    abbrev pub rows : List (ℕ × SensorData) → Text
    rows [] = []
    rows ((now, d) ∷ ds) = row date clock always six now d ++ rows ds

    insert_sensor-row :
        (now : ℕ) (d : SensorData) (pid : ℤ) (n : ℕ) (pipe file : Text)
        → is_zero pid ≡ false
        → n + 1 < int_max
        → insert_sensor date clock always six now true (some tt) d (gateway pid n pipe file)
          ≡ ok (pos 0) (
              gateway pid
                (n + 1 + 1)
                ((pipe ++ line n (codes "Attempting to insert data.\n"))
                  ++ line (n + 1) (codes "Data inserted.\n"))
                (file ++ row date clock always six now d))
    unfolding insert_sensor
    insert_sensor-row now d pid n pipe file alive small =
        rw
          (
            write-line (codes "Attempting to insert data.\n") pid n pipe file alive (omega arith),
            write-line (codes "Data inserted.\n") pid (n + 1)
                (pipe ++ line n (codes "Attempting to insert data.\n"))
                (file ++ row date clock always six now d) alive small,
          )
          refl

    insert_all-rows :
        (ds : List (ℕ × SensorData)) (pid : ℤ) (n : ℕ) (pipe file : Text)
        → is_zero pid ≡ false
        → n + 2 * length ds < int_max
        → insert_all date clock always six (some tt) ds (gateway pid n pipe file)
          ≡ ok tt
              (gateway pid (n + 2 * length ds) (pipe ++ lines n (insertions ds)) (file ++ rows ds))
    unfolding insert_all
    insert_all-rows [] pid n pipe file alive small =
        let same : n ≡ n + 2 * length {A = ℕ × SensorData} [] = omega arith in
        λ i. ok tt (gateway pid (same i) (sym (append-nil pipe) i) (sym (append-nil file) i))
    insert_all-rows ((now, d) ∷ ds) pid n pipe file alive small =
        let a = line n (codes "Attempting to insert data.\n") in
        let b = line (n + 1) (codes "Data inserted.\n") in
        let r = row date clock always six now d in
        let count : n + 1 + 1 + 2 * length ds ≡ n + 2 * suc (length ds) = omega arith in
        let more = lines (n + 1 + 1) (insertions ds) in
        rw (insert_sensor-row now d pid n pipe file alive (omega (arith, small))) (
          insert_all-rows ds pid (n + 1 + 1) ((pipe ++ a) ++ b) (file ++ r) alive
            (omega (arith, small))
          ∙ λ i. ok tt (
              gateway pid (count i)
                ((append_assoc (pipe ++ a) b more ∙ append_assoc pipe a (b ++ more)) i)
                (append_assoc file r (rows ds) i)))

    lines-append :
        (xs ys : List Text) (n : ℕ) → lines n (xs ++ ys) ≡ lines n xs ++ lines (n + length xs) ys
    lines-append [] ys n = ap (λ k. lines k ys) (omega arith)
    lines-append (x ∷ xs) ys n =
        let same : n + 1 + length xs ≡ n + suc (length xs) = omega arith in
        ap (λ t. line n x ++ t)
          (lines-append xs ys (n + 1) ∙ ap (λ k. lines (n + 1) xs ++ lines k ys) same)
        ∙ sym (append_assoc (line n x) (lines (n + 1) xs) (lines (n + suc (length xs)) ys))

    last_line :
        (ds : List (ℕ × SensorData)) (n : ℕ)
        → lines n (insertions ds ++ codes "Data file closed\n" ∷ [])
          ≡ lines n (insertions ds) ++ line (n + 2 * length ds) (codes "Data file closed\n")
    last_line ds n =
        let end : Text = codes "Data file closed\n" in
        let at : n + length (insertions ds) ≡ n + 2 * length ds =
          omega (arith, length-insertions ds) in
        lines-append (insertions ds) (end ∷ []) n
        ∙ ap (λ t. lines n (insertions ds) ++ t)
            (append-nil (line (n + length (insertions ds)) end))
        ∙ ap (λ k. lines n (insertions ds) ++ line k end) at

    open_db-opened :
        (pipe_result p0 pid : ℤ) (append : Bool) (n : ℕ) (pipe file : Text)
        → is_minus_one pipe_result ≡ false
        → is_minus_one pid ≡ false
        → is_zero pid ≡ false
        → n < int_max
        → open_db date clock always pipe_result pid append true (gateway p0 n pipe file)
          ≡ ok (some tt) (
              gateway pid
                (n + 1)
                (pipe ++ line n (codes "Data file opened.\n"))
                (if append then file else []))
    unfolding open_db create_log_process
    open_db-opened pipe_result p0 pid true n pipe file piped forked alive small =
        rw (piped, forked, write-line (codes "Data file opened.\n") pid n pipe file alive small)
          refl
    open_db-opened pipe_result p0 pid false n pipe file piped forked alive small =
        rw (piped, forked, write-line (codes "Data file opened.\n") pid n pipe [] alive small) refl

    close_db-closed :
        (close_result wait_result pid : ℤ) (n : ℕ) (pipe file : Text)
        → is_minus_one close_result ≡ false
        → is_minus_one wait_result ≡ false
        → is_zero pid ≡ false
        → n < int_max
        → close_db date clock always true true close_result wait_result
            (some tt)
            (gateway pid n pipe file)
          ≡ ok (pos 0) (gateway pid (n + 1) (pipe ++ line n (codes "Data file closed\n")) file)
    unfolding close_db end_log_process
    close_db-closed close_result wait_result pid n pipe file closed waited alive small =
        rw (write-line (codes "Data file closed\n") pid n pipe file alive small, closed, waited)
          refl

    -- A session in which the system calls succeed: the database holds what it held before, or
    -- nothing if it was not opened to append, and then one row for each record, in order and with
    -- the time of its insertion; the pipe has been given the numbered lines that say so, two for
    -- each record between one for the opening and one for the end; and the status is 0.
    pub session-files :
        (pipe_result close_result wait_result p0 pid : ℤ) (append : Bool)
        (ds : List (ℕ × SensorData)) (n : ℕ) (pipe file : Text)
        → is_minus_one pipe_result ≡ false
        → is_minus_one pid ≡ false
        → is_zero pid ≡ false
        → is_minus_one close_result ≡ false
        → is_minus_one wait_result ≡ false
        → n + 2 * length ds + 1 < int_max
        → session date clock always six pipe_result pid append true close_result wait_result ds
            (gateway p0 n pipe file)
          ≡ ok (pos 0) (
              gateway pid
                (n + 2 * length ds + 2)
                (pipe ++ lines n (session_messages ds))
                ((if append then file else []) ++ rows ds))
    unfolding session
    session-files pipe_result close_result wait_result p0 pid append ds n pipe file piped forked
          alive closed waited small =
        let first = line n (codes "Data file opened.\n") in
        let kept : Text = if append then file else [] in
        let inner = lines (n + 1) (insertions ds) in
        let end : Text = codes "Data file closed\n" in
        let count : n + 1 + 2 * length ds + 1 ≡ n + 2 * length ds + 2 = omega arith in
        let texts : ((pipe ++ first) ++ inner) ++ line (n + 1 + 2 * length ds) end
            ≡ pipe ++ lines n (session_messages ds) =
          append_assoc (pipe ++ first) inner (line (n + 1 + 2 * length ds) end)
          ∙ append_assoc pipe first (inner ++ line (n + 1 + 2 * length ds) end)
          ∙ ap (λ t. pipe ++ (first ++ t)) (sym (last_line ds (n + 1))) in
        rw
          (
            open_db-opened pipe_result p0 pid append n pipe file piped forked alive
                (omega (arith, small)),
            insert_all-rows ds pid (n + 1) (pipe ++ first) kept alive (omega (arith, small)),
            close_db-closed close_result wait_result pid (n + 1 + 2 * length ds)
                ((pipe ++ first) ++ inner) (kept ++ rows ds) closed waited alive
                (omega (arith, small)),
          )
          (λ i. ok (pos 0) (gateway pid (count i) (texts i) (kept ++ rows ds)))
