-- ===== src/Trace/Bfs.antt =====
-- include/traceIdentification.hpp: the breadth-first order of the blocks.
use llvm_scheduling_reg_pres.Base.{
  ℕ, zero, suc, List, [], ◌∷◌, ◌++◌, Option, none, some, length, get_elem?,
}
use llvm_scheduling_reg_pres.Trace.Setting.{Profile, BfsIndex}
use llvm_scheduling_reg_pres.Ddg.{update}

-- if (!bfsIndex.count(succ)) { bfsIndex[succ] = bfsOrder.size(); bfsOrder.push_back(succ); }
abbrev pub note_block : ℕ → BfsIndex → BfsIndex
note_block bb b = elim (b.position bb) [
  | some _ ↦ b
  | none ↦ record {
    order = b.order ++ bb ∷ [];
    position = update b.position bb (some (length b.order));
    size = suc b.size;
  }
]

unfoldable pub note_blocks : List ℕ → BfsIndex → BfsIndex
note_blocks [] b = b
note_blocks (bb ∷ bbs) b = note_blocks bbs (note_block bb b)

-- for (size_t i = 0; i < bfsOrder.size(); ++i), from `i` on
unfoldable pub bfs_from : Profile → (fuel : ℕ) → ℕ → BfsIndex → Option BfsIndex
unfolding note_blocks
bfs_from p zero i b = elim (get_elem? b.order i) [ none ↦ some b | some _ ↦ none ]
bfs_from p (suc fuel) i b = elim (get_elem? b.order i) [
  | none ↦ some b
  | some bb ↦ bfs_from p fuel (suc i) (note_blocks (p.successors bb) b)
]

abbrev pub entry_only : Profile → BfsIndex
entry_only p = record {
  order = p.entry ∷ [];
  position = update (λ _. none) p.entry (some 0);
  size = 1;
}

-- The loop goes through each block once.
unfoldable pub bfs : Profile → (fuel : ℕ) → Option BfsIndex
unfolding bfs_from
bfs p fuel = bfs_from p fuel 0 (entry_only p)
