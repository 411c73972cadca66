-- ===== src/Sbuffer.antt =====
-- TCP_SensorMonitoringSystem/project/sbuffer.c: the linked list that the connection manager fills
-- and that the storage and data managers walk. Each call runs as one step; the mutex is a flag, so
-- that a call which forgets to release it blocks the next. `pthread_cond_signal` at the end of
-- an insertion changes nothing here; `Plab4.Threads` has the readers that wait for it.
pub mod Chain
pub mod Insert
pub mod Read
pub mod Remove
pub mod Free
pub mod Readers
mod Tests
use osc_server.Base.{ℕ, zero, suc, Bool, true, false, not, Option, none, some, ◌==◌, if◌then◌else◌}
use osc_server.Memory.{
  Ptr, null, Store, write, Cmd, ok, fault, out_of_fuel, pure, undefined, wait, ◌>>=◌, ◌>>◌, exit_if,
}
use osc_server.Config.{SensorData}

-- `SBUFFER_FAILURE`, `SBUFFER_SUCCESS`, `SBUFFER_EMPTY`
pub data Status : Type 0 where
  failure success empty : Status

pub record SbufferNode : Type 0 where
  pub next : Ptr
  pub payload : SensorData

abbrev pub node : Ptr → SensorData → SbufferNode
node q d = record { next = q; payload = d }

pub record Sbuffer : Type 0 where
  pub head : Ptr
  pub tail : Ptr
  pub mutex : Bool

-- The global `buffer`: NULL, a struct, or the address of a struct that was freed.
pub data Handle : Type 0 where
  unset : Handle
  live : Sbuffer → Handle
  dangling : Handle

pub record Shared : Type 0 where
  pub buffer : Handle
  pub nodes : Store SbufferNode

abbrev pub shared : Ptr → Ptr → Bool → Store SbufferNode → Shared
shared h t m ns = record { buffer = live (record { head = h; tail = t; mutex = m }); nodes = ns }

-- `buffer == NULL`
abbrev pub is_null : Handle → Bool
is_null unset = true
is_null (live b) = false
is_null dangling = false

abbrev pub struct : Handle → Cmd Shared Sbuffer
struct unset s = fault
struct (live b) s = ok b s
struct dangling s = fault

-- `*buffer`
abbrev pub get_buffer : Cmd Shared Sbuffer
get_buffer s = struct s.buffer s

abbrev pub put_buffer : Sbuffer → Cmd Shared (Unit {0})
put_buffer b s = ok tt (record s { buffer = live b })

abbrev pub buffer_is_null : Cmd Shared Bool
buffer_is_null s = ok (is_null s.buffer) s

abbrev found : Option SbufferNode → Cmd Shared SbufferNode
found none s = fault
found (some n) s = ok n s

-- `*p`: undefined at NULL and where no node is allocated.
unfoldable pub load : Ptr → Cmd Shared SbufferNode
load p s = if p == null then fault else found (s.nodes p) s

abbrev pub store : Ptr → Option SbufferNode → Cmd Shared (Unit {0})
store p c s = ok tt (record s { nodes = write s.nodes p c })

-- `p->next = q`
unfoldable pub set_next : Ptr → Ptr → Cmd Shared (Unit {0})
set_next p q = do n ← load p; store p (some (node q n.payload))

-- `free(p)` of a node
unfoldable pub free_node : Ptr → Cmd Shared (Unit {0})
free_node p = load p >> store p none

-- `pthread_mutex_lock` and `pthread_mutex_unlock`
abbrev pub lock : Cmd Shared (Unit {0})
lock = do b ← get_buffer; if b.mutex then wait else put_buffer (record b { mutex = true })

abbrev pub unlock : Cmd Shared (Unit {0})
unlock = do b ← get_buffer; put_buffer (record b { mutex = false })

-- `allocated` tells whether `malloc` found memory.
pub sbuffer_init : (allocated : Bool) → Cmd Shared (Unit {0})
sbuffer_init allocated = do
  exit_if (not allocated)
  put_buffer (record { head = null; tail = null; mutex = false })

-- The loop of `sbuffer_free`, from `current` on.
free_loop : ℕ → (current : Ptr) → Cmd Shared (Unit {0})
free_loop zero current = λ _. out_of_fuel
free_loop (suc fuel) current =
    if current == null
    then pure tt
    else do n ← load current; free_node current; free_loop fuel n.next

abbrev drop_buffer : Cmd Shared (Unit {0})
drop_buffer s = ok tt (record s { buffer = dangling })

pub sbuffer_free : (fuel : ℕ) → Cmd Shared (Unit {0})
unfolding free_loop
sbuffer_free fuel = do b ← get_buffer; free_loop fuel b.head; drop_buffer

-- `data` is the caller's record, which a failing call leaves alone.
unfoldable pub sbuffer_remove : (data' : SensorData) → Cmd Shared (Status × SensorData)
sbuffer_remove data' = do
  missing ← buffer_is_null
  if missing then pure (failure, data') else do
    lock
    b ← get_buffer
    if b.head == null then wait else do
      first ← load b.head
      put_buffer (
          if b.head == b.tail
          then record b { head = null; tail = null }
          else record b { head = first.next })
      free_node b.head
      unlock
      pure (success, first.payload)

-- A reader's place is `node`, the last node that it read.
pub sbuffer_read : (node : Ptr) (data' : SensorData) → Cmd Shared (Status × Ptr × SensorData)
sbuffer_read p data' = do
  missing ← buffer_is_null
  exit_if missing
  b ← get_buffer
  if b.head == null
      then pure (empty, p, data')
      else if p == null
      then (do first ← load b.head; pure (success, b.head, first.payload))
      else do
        here ← load p
        if here.next == null
            then pure (empty, p, data')
            else do next ← load here.next; pure (success, here.next, next.payload)

-- `fresh` is what `malloc` returns.
unfoldable pub sbuffer_insert : (fresh : Ptr) → SensorData → Cmd Shared Status
sbuffer_insert fresh data' = do
  missing ← buffer_is_null
  if missing then pure failure else if fresh == null then pure failure else do
    store fresh (some (node null data'))
    lock
    b ← get_buffer
    if b.tail == null
        then put_buffer (record b { head = fresh; tail = fresh })
        else (do set_next b.tail fresh; put_buffer (record b { tail = fresh }))
    unlock
    pure success
