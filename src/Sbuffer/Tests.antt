-- ===== src/Sbuffer/Tests.antt =====
-- Runs of sbuffer.c, and its theorems at concrete buffers.
use osc_server.Base.{
  ℕ, ◌≡◌, refl, false, none, some, List, [], ◌∷◌, ◌++◌, arith, ◌==◌, if◌then◌else◌,
}
use osc_server.Memory.{null, Store, ok, fault}
use osc_server.Memory.Returns.{Returns}
use osc_server.Config.{SensorData}
use osc_server.Sbuffer.{
  SbufferNode, node, Shared, shared, success, empty, dangling, load, sbuffer_free, sbuffer_read,
  sbuffer_insert,
}
use osc_server.Sbuffer.Chain.{Cells, IsBuffer}
use osc_server.Sbuffer.Insert.{Inserted, insert-appends}
use osc_server.Sbuffer.Read.{read-get_elem?}
use osc_server.Sbuffer.Free.{Without, free-Without}
use osc_server.Sbuffer.Readers.{World, Event, insert, read, run}
use osc_server.Sbuffer.Readers.Streams.{start, polls, streams_prefix, streams_complete}

abbrev sample : ℕ → SensorData
sample n = record { id = n; value = 0; ts = 7 }

-- Two nodes, at the addresses 64 and 32.
abbrev two_nodes : Store SbufferNode
two_nodes a =
    if a == 64
    then some (node 32 (sample 15))
    else if a == 32
    then some (node null (sample 21))
    else none

abbrev two : Shared
two = shared 64 32 false two_nodes

abbrev two_cells : Cells
two_cells = (64, sample 15) ∷ (32, sample 21) ∷ []

two-IsBuffer : IsBuffer two two_cells
two-IsBuffer = record {
  handle = refl;
  chain = (ground arith, refl, refl, (ground arith, refl, refl, tt));
}

nothing : Shared
nothing = shared null null false (λ a. none)

nothing-IsBuffer : IsBuffer nothing []
unfolding nothing
nothing-IsBuffer = record { handle = refl; chain = tt }

insert-appends_example :
    Returns (Inserted two_nodes 96 (sample 37) two_cells) (sbuffer_insert 96 (sample 37) two)
insert-appends_example =
    insert-appends two two_cells 96 (sample 37) two-IsBuffer (ground arith) refl

read-get_elem?_example : sbuffer_read 64 (sample 15) two ≡ ok (success, 32, sample 21) two
read-get_elem?_example = read-get_elem? two two_cells 1 (sample 15) two-IsBuffer (omega arith)

free-Without_example :
    Returns
      (λ _ s.
        (s.buffer ≡ dangling) × Without two_cells two_nodes s.nodes × (sbuffer_free 3 s ≡ fault))
      (sbuffer_free 3 two)
free-Without_example = free-Without two two_cells 3 two-IsBuffer (omega arith)

abbrev history : List Event
history = read 0 ∷ insert 64 (sample 15) ∷ read 0 ∷ insert 32 (sample 21) ∷ read 1 ∷ read 0 ∷ []

streams_prefix_example :
    (w : World) × (run (start (sample 0)) history ≡ some w)
    × ((i : ℕ)
        → (rest : List SensorData) × ((w.readers i).got ++ rest ≡ sample 15 ∷ sample 21 ∷ []))
streams_prefix_example =
    streams_prefix (sample 0) history (ground arith, refl, (ground arith, refl, tt))

streams_complete_example :
    (w : World) × (run (start (sample 0)) (history ++ polls 2 1) ≡ some w)
    × ((w.readers 1).got ≡ sample 15 ∷ sample 21 ∷ [])
streams_complete_example =
    streams_complete (sample 0) history 1 (ground arith, refl, (ground arith, refl, tt))

drained : sbuffer_read 32 (sample 21) two ≡ ok (empty, 32, sample 21) two
unfolding sbuffer_read load
drained = refl
