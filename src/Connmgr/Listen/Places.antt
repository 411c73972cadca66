-- ===== src/Connmgr/Listen/Places.antt =====
-- Where the listener is in its code, and that a signal does not change that.
use osc_server.Base.{◌≡◌, refl, Bool, true, false}
use osc_server.Connmgr.Listen.{
  Pc, testing, testing_unlocked, accepting, waiting, sleeping, closing, finished, unstored, woken,
}

-- Behind the loop of connections, behind the wait, at the end, and asleep.
abbrev pub past_loop : Pc → Bool
past_loop testing = false
past_loop testing_unlocked = false
past_loop accepting = false
past_loop waiting = true
past_loop sleeping = true
past_loop closing = true
past_loop finished = true
past_loop unstored = true

abbrev pub past_wait : Pc → Bool
past_wait testing = false
past_wait testing_unlocked = false
past_wait accepting = false
past_wait waiting = false
past_wait sleeping = false
past_wait closing = true
past_wait finished = true
past_wait unstored = true

abbrev pub is_finished : Pc → Bool
is_finished testing = false
is_finished testing_unlocked = false
is_finished accepting = false
is_finished waiting = false
is_finished sleeping = false
is_finished closing = false
is_finished finished = true
is_finished unstored = false

abbrev pub is_sleeping : Pc → Bool
is_sleeping testing = false
is_sleeping testing_unlocked = false
is_sleeping accepting = false
is_sleeping waiting = false
is_sleeping sleeping = true
is_sleeping closing = false
is_sleeping finished = false
is_sleeping unstored = false

-- A signal wakes, and changes nothing else.
pub past_loop-woken : (p : Pc) → past_loop (woken p) ≡ past_loop p
past_loop-woken testing = refl
past_loop-woken testing_unlocked = refl
past_loop-woken accepting = refl
past_loop-woken waiting = refl
past_loop-woken sleeping = refl
past_loop-woken closing = refl
past_loop-woken finished = refl
past_loop-woken unstored = refl

pub past_wait-woken : (p : Pc) → past_wait (woken p) ≡ past_wait p
past_wait-woken testing = refl
past_wait-woken testing_unlocked = refl
past_wait-woken accepting = refl
past_wait-woken waiting = refl
past_wait-woken sleeping = refl
past_wait-woken closing = refl
past_wait-woken finished = refl
past_wait-woken unstored = refl

pub is_finished-woken : (p : Pc) → is_finished (woken p) ≡ is_finished p
is_finished-woken testing = refl
is_finished-woken testing_unlocked = refl
is_finished-woken accepting = refl
is_finished-woken waiting = refl
is_finished-woken sleeping = refl
is_finished-woken closing = refl
is_finished-woken finished = refl
is_finished-woken unstored = refl

pub awake : (p : Pc) → is_sleeping (woken p) ≡ false
awake testing = refl
awake testing_unlocked = refl
awake accepting = refl
awake waiting = refl
awake sleeping = refl
awake closing = refl
awake finished = refl
awake unstored = refl

pub past_wait_finished : (p : Pc) → is_finished p ≡ true → past_wait p ≡ true
past_wait_finished testing e = cc
past_wait_finished testing_unlocked e = cc
past_wait_finished accepting e = cc
past_wait_finished waiting e = cc
past_wait_finished sleeping e = cc
past_wait_finished closing e = cc
past_wait_finished finished e = refl
past_wait_finished unstored e = cc
