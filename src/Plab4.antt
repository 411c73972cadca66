-- ===== src/Plab4.antt =====
-- plab_1-4_solutions/startcodeplab4: the buffer of the fourth lab, sbuffer.c, from which readers
-- remove records, and the two readers and the writer of its main.c. The node, the struct and the
-- statements of the calls are those of the project's buffer; here the caller passes the buffer.
pub mod Free
pub mod Threads
pub mod OutputTest
use osc_server.Base.{ℕ, zero, suc, Bool, true, false, not, ◌||◌, ◌==◌, if◌then◌else◌}
use osc_server.Memory.{Ptr, null, Cmd, ok, out_of_fuel, pure, ◌>>=◌, ◌>>◌}
use osc_server.Config.{SensorData}
use osc_server.Sbuffer
use osc_server.Sbuffer.{
  Shared, Status, failure, success, unset, load, free_node, get_buffer, put_buffer, buffer_is_null,
}

-- `*buffer = malloc(sizeof(sbuffer_t))`; a `malloc` that fails leaves NULL there.
pub sbuffer_init : (allocated : Bool) → Cmd Shared Status
sbuffer_init allocated =
    if allocated
    then (do put_buffer (record { head = null; tail = null; mutex = false }); pure success)
    else λ s. ok failure (record s { buffer = unset })

-- `while ((*buffer)->head)`
free_heads : ℕ → Cmd Shared (Unit {0})
free_heads zero = λ _. out_of_fuel
free_heads (suc fuel) =
    let rest = free_heads fuel in
    do
      b ← get_buffer
      if b.head == null
          then pure tt
          else do n ← load b.head; put_buffer (record b { head = n.next }); free_node b.head; rest

-- `free(*buffer); *buffer = NULL;`
abbrev unset_buffer : Cmd Shared (Unit {0})
unset_buffer s = ok tt (record s { buffer = unset })

-- `given` tells whether the argument, the address of the pointer, is not NULL.
unfoldable pub sbuffer_free : (given : Bool) (fuel : ℕ) → Cmd Shared Status
unfolding free_heads
sbuffer_free given fuel = do
  missing ← buffer_is_null
  if not given || missing then pure failure else do free_heads fuel; unset_buffer; pure success

-- A reader waits for `cond_var` while the buffer is empty.
pub sbuffer_remove : (old : SensorData) → Cmd Shared (Status × SensorData)
unfolding Sbuffer.sbuffer_remove
sbuffer_remove old = Sbuffer.sbuffer_remove old

-- `fresh` is what `malloc` returns.
pub sbuffer_insert : (fresh : Ptr) → SensorData → Cmd Shared Status
unfolding Sbuffer.sbuffer_insert
sbuffer_insert fresh d = Sbuffer.sbuffer_insert fresh d
