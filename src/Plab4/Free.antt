-- ===== src/Plab4/Free.antt =====
-- `sbuffer_init` and `sbuffer_free` of the fourth lab.
use osc_server.Base.{
  ℕ, zero, suc, ◌<◌, ◌≡◌, refl, Bool, true, false, none, [], ◌∷◌, arith, ◌==◌, length,
}
use osc_server.Memory.{Ptr, null, Store, write, ok}
use osc_server.Memory.Returns
use osc_server.Memory.Returns.{Returns, returns}
use osc_server.Sbuffer.{SbufferNode, Shared, shared, unset, failure, success, load, free_node}
use osc_server.Sbuffer.Chain.{Cells, first, Chain, Chain-write, IsBuffer, IsBuffer-shared}
use osc_server.Sbuffer.Free.{Without}
use osc_server.Plab4.{free_heads, sbuffer_init, sbuffer_free}

free_heads-Without :
    (fuel : ℕ) (t : Ptr) (m : Bool) (h : Store SbufferNode) (xs : Cells)
    → Chain h xs
    → length xs < fuel
    → Returns (λ _ s. Without xs h s.nodes) (free_heads fuel (shared (first xs) t m h))
unfolding free_heads free_node load write
free_heads-Without zero t m h xs k enough = absurd (omega arith)
free_heads-Without (suc fuel) t m h [] k enough = returns (λ a. refl)
free_heads-Without (suc fuel) t m h ((p, d) ∷ xs) (ne, holds, new, rest) enough =
    let e : (p == null) ≡ false = ground arith in
    rw (e, e, holds, e, holds)
      (Returns.mono
        (free_heads-Without fuel t m (write h p none) xs (Chain-write h p none xs rest new)
          (omega arith))
        λ _ s gone. λ a. ground (arith, gone a))

-- `sbuffer_free` of the lab frees exactly the nodes of the buffer with one round of fuel more than
-- there are nodes, and sets the caller's pointer to NULL: a second call reports failure and
-- changes nothing, and so does a call with NULL.
pub free-unset :
    (s : Shared) (xs : Cells) (fuel : ℕ)
    → IsBuffer s xs
    → length xs < fuel
    → Returns
        (λ st s'.
          (st ≡ success)
          × (s'.buffer ≡ unset)
          × Without xs s.nodes s'.nodes
          × (sbuffer_free true fuel s' ≡ ok failure s'))
        (sbuffer_free true fuel s)
      × (sbuffer_free false fuel s ≡ ok failure s)
unfolding sbuffer_free
free-unset s xs fuel is enough = rw (IsBuffer-shared s xs is) (
  Returns.bind (free_heads-Without fuel _ _ s.nodes xs is.chain enough)
      λ _ s' gone. returns (refl, refl, gone, refl),
  refl,
)

-- `sbuffer_init` of the lab makes an empty buffer, or reports failure with NULL in the caller's
-- pointer, which `sbuffer_free` then refuses.
pub init-free :
    (s : Shared) (fuel : ℕ)
    → Returns
        (λ st s'. (st ≡ success) × IsBuffer s' [] × (s'.nodes ≡ s.nodes))
        (sbuffer_init true s)
      × Returns
          (λ st s'. (st ≡ failure) × (sbuffer_free true fuel s' ≡ ok failure s'))
          (sbuffer_init false s)
unfolding sbuffer_init sbuffer_free
init-free s fuel =
    (returns (refl, record { handle = refl; chain = tt }, refl), returns (refl, refl))
