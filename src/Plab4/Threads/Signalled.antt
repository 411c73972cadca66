-- ===== src/Plab4/Threads/Signalled.antt =====
-- What a signal does to the weights of the readers.
use osc_server.Base.{ℕ, ◌+◌, ◌≤◌, ◌<◌, ◌≡◌, ◌≢◌, refl, List, [], ◌∷◌, arith, ap, sym, ◌∙◌}
use osc_server.Base.Tally.{tally, tally-append}
use osc_server.Config.{SensorData}
use osc_server.Sbuffer.{Shared, Status, success, failure, empty}
use osc_server.Sbuffer.Chain.{Cells, payloads}
use osc_server.Plab4.Threads.{
  ReaderId, one, two, Reader, removing, waiting, reinserting, update, Signals, no_signal,
  none_waits, wakes,
}
use osc_server.Plab4.Threads.Weights.{
  over, over-update, le-over, awake, asleep, asleep-waiting, reader_left, unit,
}
use osc_server.Plab4.Threads.Calls.{Grown}

-- A weight that is the same for a reader at its test and one that waits.
pub over-Signals :
    (h : Reader → ℕ) (st : Status) {rs rs' : ReaderId → Reader}
    → h waiting ≡ h removing
    → Signals st rs rs'
    → over h rs' ≡ over h rs
over-Signals h st same (no_signal failed) = refl
over-Signals h st same (none_waits a b) = refl
over-Signals h st {rs = rs} same (wakes t at) =
    omega (arith, over-update h rs t removing, same, ap h at)

-- A signal is good for one step more.
pub over-reader_left :
    (st : Status) {rs rs' : ReaderId → Reader}
    → Signals st rs rs'
    → over reader_left rs' ≤ over reader_left rs + 1
over-reader_left st (no_signal failed) = omega arith
over-reader_left st (none_waits a b) = omega arith
over-reader_left st {rs = rs} (wakes t at) =
    omega (arith, over-update reader_left rs t removing, ap reader_left at)

update-other :
    (rs : ReaderId → Reader) (t i : ReaderId) (d : SensorData)
    → rs t ≡ waiting
    → rs i ≡ reinserting d
    → update rs t removing i ≡ reinserting d
update-other rs one one d w r = absurd (let e : waiting ≡ reinserting d = sym w ∙ r in cc)
update-other rs one two d w r = r
update-other rs two one d w r = r
update-other rs two two d w r = absurd (let e : waiting ≡ reinserting d = sym w ∙ r in cc)

pub reinserting-Signals :
    (st : Status) {rs rs' : ReaderId → Reader} (i : ReaderId) (d : SensorData)
    → Signals st rs rs'
    → rs i ≡ reinserting d
    → rs' i ≡ reinserting d
reinserting-Signals st i d (no_signal failed) at = at
reinserting-Signals st i d (none_waits a b) at = at
reinserting-Signals st {rs = rs} i d (wakes t w) at = update-other rs t i d w at

-- While a reader waits, there are no more records in the buffer than readers at their test.
abbrev pub Rested : Cells → (ReaderId → Reader) → Type 0
Rested xs rs = 0 < over asleep rs → tally unit (payloads xs) ≤ over awake rs

unchanged :
    (st : Status) (d : SensorData) (lost : List SensorData) (xs ys : Cells) (s : Shared)
    → st ≢ success
    → Grown d st lost xs ys s
    → tally unit (payloads ys) ≡ tally unit (payloads xs)
unchanged success d lost xs ys s failed g = absurd (failed refl)
unchanged failure d lost xs ys s failed g =
    omega (arith, g.moved unit, tally-append unit lost (d ∷ []))
unchanged empty d lost xs ys s failed g =
    omega (arith, g.moved unit, tally-append unit lost (d ∷ []))

-- An insertion with its signal keeps that.
pub Signals-Rested :
    (st : Status) (d : SensorData) (lost : List SensorData) (xs ys : Cells) (s : Shared)
    {rs rs' : ReaderId → Reader}
    → Grown d st lost xs ys s
    → Signals st rs rs'
    → Rested xs rs
    → Rested ys rs'
Signals-Rested st d lost xs ys s g (no_signal failed) rest h =
    omega (arith, rest h, unchanged st d lost xs ys s failed g)
Signals-Rested st d lost xs ys s {rs = rs} g (none_waits a b) rest h =
    absurd (omega (arith, h, asleep-waiting (rs one) a, asleep-waiting (rs two) b))
Signals-Rested st d lost xs ys s {rs = rs} g (wakes t at) rest h =
    let waits = le-over asleep rs t in
    omega (
      arith,
      rest (omega (arith, waits, ap asleep at)),
      g.most unit,
      over-update awake rs t removing,
      ap awake at,
    )
