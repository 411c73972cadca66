-- ===== src/Sbuffer/Free.antt =====
-- `sbuffer_free`
use osc_server.Base.{
  ℕ, zero, suc, ◌<◌, ◌≡◌, refl, false, none, [], ◌∷◌, arith, ◌==◌, if◌then◌else◌, length,
}
use osc_server.Memory.{Ptr, null, Store, write, fault}
use osc_server.Memory.Returns
use osc_server.Memory.Returns.{Returns, returns}
use osc_server.Sbuffer.{
  SbufferNode, Shared, Handle, dangling, load, free_node, free_loop, sbuffer_free,
}
use osc_server.Sbuffer.Chain.{Cells, has, first, Chain, Chain-write, IsBuffer, IsBuffer-shared}

-- `g` is `h` less the nodes of `xs`.
abbrev pub Without : Cells → Store SbufferNode → Store SbufferNode → Type 0
Without xs h g = (a : Ptr) → g a ≡ (if has a xs then none else h a)

free_loop-Without :
    (fuel : ℕ) (b : Handle) (h : Store SbufferNode) (xs : Cells)
    → Chain h xs
    → length xs < fuel
    → Returns
        (λ _ s. (s.buffer ≡ b) × Without xs h s.nodes)
        (free_loop fuel (first xs) (record { buffer = b; nodes = h }))
unfolding free_loop free_node load write
free_loop-Without zero b h xs k enough = absurd (omega arith)
free_loop-Without (suc fuel) b h [] k enough = returns (refl, λ a. refl)
free_loop-Without (suc fuel) b h ((p, d) ∷ xs) (ne, holds, new, rest) enough =
    let e : (p == null) ≡ false = ground arith in
    rw (e, e, holds, e, holds)
      (Returns.mono
        (free_loop-Without fuel b (write h p none) xs (Chain-write h p none xs rest new)
          (omega arith))
        λ _ s (same, gone). (same, λ a. ground (arith, gone a)))

-- `sbuffer_free` frees exactly the nodes of the buffer, each once, with one round of fuel more than
-- there are nodes; the global is left dangling, so that a second call is undefined.
pub free-Without :
    (s : Shared) (xs : Cells) (fuel : ℕ)
    → IsBuffer s xs
    → length xs < fuel
    → Returns
        (λ _ s'.
          (s'.buffer ≡ dangling) × Without xs s.nodes s'.nodes × (sbuffer_free fuel s' ≡ fault))
        (sbuffer_free fuel s)
unfolding sbuffer_free
free-Without s xs fuel is enough = rw (IsBuffer-shared s xs is) (
    Returns.bind (free_loop-Without fuel _ s.nodes xs is.chain enough)
      λ _ s' (same, gone). returns (refl, gone, refl))
