-- ===== src/Plab4/Threads/Tests.antt =====
-- Runs of the threads.
use osc_server.Base.{
  ℕ, ◌+◌, ◌*◌, ◌≤◌, ◌≡◌, ◌≢◌, sym, ◌∙◌, refl, none, List, [], ◌∷◌, ◌++◌, arith, inl, inr, length,
}
use mathlib.Core.List.{Perm}
use osc_server.Base.Text.{decimal}
use osc_server.Memory.{Store, write, null}
use osc_server.Config.{SensorData}
use osc_server.Sbuffer
use osc_server.Sbuffer.{SbufferNode, Shared, success, failure, load, free_node}
use osc_server.Sbuffer.Chain.{IsBuffer}
use osc_server.Storage.Csv.{csv, NoEnd}
use osc_server.Plab4.{sbuffer_insert, sbuffer_remove}
use osc_server.Plab4.Threads.{
  joining, one, two, Reader, removing, waiting, reinserting, waits, wakes, none_waits, no_signal,
  started, World, Step, opens, inserts, inserts_marker, removes, writes, counts, reinserts,
  Reachable, starts, then_step,
}
use osc_server.Plab4.Threads.Ends.{
  AllEnded, ended-conserved, marker_lost-not_ended, Reachable-length,
}
use osc_server.Plab4.Threads.Progress.{unfinished-Step}

abbrev reading_one : SensorData
reading_one = record { id = 15; value = 3; ts = 1700000000 }

abbrev input : List SensorData
input = reading_one ∷ []

abbrev nodes : Store SbufferNode
nodes a = none

address : (n : ℕ) → n + 1 ≢ null
address n = omega arith

no_marker : reading_one.id ≢ 0
no_marker = omega arith

awake_reader : {r : Reader} → r ≡ removing → r ≢ waiting
awake_reader e w = let x : removing ≡ waiting = sym e ∙ w in cc

busy_reader : {r : Reader} {d : SensorData} → r ≡ reinserting d → r ≢ waiting
busy_reader {d = d} e w = let x : reinserting d ≡ waiting = sym e ∙ w in cc

-- The second reader waits until the record is there. The first takes it and meets the marker; the
-- second drops the marker.
run : (w : World) × Reachable decimal nodes input 11 w × AllEnded w
unfolding sbuffer_insert sbuffer_remove Sbuffer.sbuffer_insert Sbuffer.sbuffer_remove load free_node
    write Sbuffer.set_next
run =
    let r1 =
      then_step (then_step starts (opens _ reading_one refl refl))
        (waits _ two reading_one refl refl refl) in
    let r2 = then_step r1 (
      inserts _ reading_one reading_one [] success _ _ refl refl refl
        (record { fresh = 1; malloc = inr (address 0, refl); run = refl }) (wakes two refl)) in
    let r3 =
      then_step (then_step r2 (removes _ one reading_one _ _ _ refl refl refl))
        (writes _ one reading_one refl refl no_marker) in
    let r4 = then_step r3 (
      inserts_marker _ reading_one success _ _ refl refl refl
        (record { fresh = 2; malloc = inr (address 1, refl); run = refl })
        (none_waits (awake_reader refl) (awake_reader refl))) in
    let r5 =
      then_step (then_step r4 (removes _ one reading_one _ _ _ refl refl refl))
        (counts _ one _ refl refl refl) in
    let r6 = then_step r5 (
      reinserts _ one _ success _ _ refl refl
        (record { fresh = 3; malloc = inr (address 2, refl); run = refl })
        (none_waits (busy_reader refl) (awake_reader refl))) in
    (
      _,
      then_step (then_step r6 (removes _ two reading_one _ _ _ refl refl refl))
          (counts _ two _ refl refl refl),
      record { writer = refl; first = refl; second = refl },
    )

run_rows : run.0.rows ≡ input
unfolding run
run_rows = refl

-- There is no memory for the writer's marker.
starved :
    (w : World) × Reachable decimal nodes [] 2 w
    × (w.lost ≡ [] ++ (record { id = 0; value = 0; ts = 0 }) ∷ [])
unfolding sbuffer_insert Sbuffer.sbuffer_insert
starved = (
  _,
  then_step (then_step starts (opens _ (record { id = 0; value = 0; ts = 0 }) refl refl)) (
      inserts_marker _ (record { id = 0; value = 0; ts = 0 }) failure _ _ refl refl refl
        (record { fresh = 0; malloc = inl refl; run = refl }) (no_signal (λ e. cc))),
  refl,
)

input-NoEnd : NoEnd input
input-NoEnd = (omega arith, tt)

ended-conserved_example :
    (run.0.file_out ≡ csv decimal run.0.rows)
    × Perm (run.0.rows ++ run.0.lost) input
    × (run.0.main ≡ joining → IsBuffer run.0.shared [])
ended-conserved_example = ended-conserved decimal nodes input 11 run.0 input-NoEnd run.1 run.2

marker_lost-not_ended_example : ¬ AllEnded starved.0
marker_lost-not_ended_example =
    marker_lost-not_ended decimal nodes [] 2 starved.0 [] [] (record { id = 0; value = 0; ts = 0 })
      tt starved.1 starved.2 refl

Reachable-length_example : 11 ≤ 6 * length input + 16
Reachable-length_example = Reachable-length decimal nodes input 11 run.0 input-NoEnd run.1

unfinished-Step_example : (v : World) × Step decimal (started nodes input) v
unfinished-Step_example =
    unfinished-Step decimal nodes input 0 (started nodes input) 1 input-NoEnd starts refl
      (omega arith) refl tt
