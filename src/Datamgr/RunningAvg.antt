-- ===== src/Datamgr/RunningAvg.antt =====
-- The window of the last measurements and its average. There are no floats here: a double is its
-- bit pattern, and the operations on it are a parameter.
use osc_server.Base.{ℕ, zero, suc, ◌+◌, ◌<◌, ◌≡◌, refl, arith, Bool, ◌==◌, if◌then◌else◌}
use osc_server.Base.Text.{Text}

pub record Floats : Type 0 where
  -- `0` as a float, and `sum += x`
  pub sum_zero : ℕ
  pub plus : ℕ → ℕ → ℕ
  -- `sum / (float) RUN_AVG_LENGTH`
  pub mean : ℕ → ℕ
  -- `((float) (SET_MAX_TEMP + SET_MIN_TEMP)) / 2.0`
  pub midpoint : ℕ
  -- `avg > SET_MAX_TEMP`, `avg < SET_MIN_TEMP`
  pub too_hot : ℕ → Bool
  pub too_cold : ℕ → Bool
  -- `%.4f`
  pub fixed4 : ℕ → Text

-- An array of `RUN_AVG_LENGTH` doubles, by its indices.
abbrev pub Window : Type 0
Window = ℕ → ℕ

abbrev pub run_avg_length : ℕ
run_avg_length = 5

abbrev put : Window → ℕ → ℕ → Window
put w i x = λ j. if j == i then x else w j

-- `for (i = n; i > 0; --i) w[i] = w[i - 1];`
shift_loop : (i : ℕ) → Window → Window
shift_loop zero w = w
shift_loop (suc i) w = shift_loop i (put w (suc i) (w i))

pub shift_window : Window → Window
unfolding shift_loop
shift_window w = shift_loop 4 w

abbrev pub set_first : Window → ℕ → Window
set_first w x = put w 0 x

sum_loop : (floats : Floats) (n i sum : ℕ) → Window → ℕ
sum_loop floats zero i sum w = sum
sum_loop floats (suc n) i sum w = sum_loop floats n (i + 1) (floats.plus sum (w i)) w

pub get_running_avg : Floats → Window → ℕ
unfolding sum_loop
get_running_avg floats w = floats.mean (sum_loop floats run_avg_length 0 floats.sum_zero w)

pub shift_window-suc : (w : Window) (i : ℕ) → suc i < run_avg_length → shift_window w (suc i) ≡ w i
unfolding shift_window
shift_window-suc w zero h = refl
shift_window-suc w (suc zero) h = refl
shift_window-suc w (suc (suc zero)) h = refl
shift_window-suc w (suc (suc (suc zero))) h = refl
shift_window-suc w (suc (suc (suc (suc i)))) h = absurd (omega arith)
