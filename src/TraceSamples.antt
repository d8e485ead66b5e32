-- ===== src/TraceSamples.antt =====
-- Trace identification on a small control flow graph, and its theorems there.
use mathlib.Core.List.{flatten}
use llvm_scheduling_reg_pres.Base.{
  ℕ, ◌≡◌, ◌≢◌, ◌↔◌, refl, true, List, [], ◌∷◌, Option, none, some, elem, if◌then◌else◌, ◌==◌,
  Distinct, length, arith, All, ltb,
}
use llvm_scheduling_reg_pres.Base.Int.{negsuc}
use llvm_scheduling_reg_pres.Trace.{
  grow_forward, grow_backward, Profile, Search, Counters, BfsIndex, no_counters, identify_traces,
  best_successor, best_predecessor, bfs, bfs_pos, get_trace_threshold,
}
use llvm_scheduling_reg_pres.Trace.Choice.{
  IsBest, eligible, best_successor-IsBest, best_predecessor-IsBest,
}
use llvm_scheduling_reg_pres.Trace.Paths.{IsCfg, HotPath}
use llvm_scheduling_reg_pres.Trace.Reach.{IsIndex, Reachable, bfs-Reachable}
use llvm_scheduling_reg_pres.Trace.Correct.{identify_traces-Distinct}

-- A loop: 0 → 1, 1 → 2 (90 %) or 3 (10 %), 2 → 1.
abbrev loop : Profile
loop = record {
  entry = 0;
  successors =
      λ b. if b == 0 then 1 ∷ [] else if b == 1 then 2 ∷ 3 ∷ [] else if b == 2 then 1 ∷ [] else [];
  predecessors =
      λ b. if b == 1 then 0 ∷ 2 ∷ [] else if b == 2 then 1 ∷ [] else if b == 3 then 1 ∷ [] else [];
  probability = λ a b. if a == 1 then if b == 2 then 90 else 10 else 100;
  frequency = λ b. if b == 1 then 100 else if b == 2 then 90 else 10;
  percent = λ n. n;
}

abbrev loop_blocks : List ℕ
loop_blocks = 0 ∷ 1 ∷ 2 ∷ 3 ∷ []

-- The hottest block grows forward to 2 and, past the back edge from 2, backward to 0.
run_loop :
    ◌≡◌ {A = Option (List (List ℕ) × Counters)}
      (identify_traces loop (get_trace_threshold loop (some (negsuc 4))) true 4)
      (some ((0 ∷ 1 ∷ 2 ∷ []) ∷ (3 ∷ []) ∷ [], record { above = 2; below = 1; backedges = 0 }))
unfolding identify_traces get_trace_threshold bfs grow_forward grow_backward
run_loop = refl

loop-IsCfg : IsCfg loop loop_blocks
loop-IsCfg = record {
  distinct = ground arith;
  entry_in = refl;
  succ_in = λ a b m h. ground arith;
  pred_in = λ a b m h. (ground arith, ground arith);
}

identify_traces-Distinct_example :
    (traces : List (List ℕ)) × (counters : Counters) × (identify_traces loop 60 true
        (length loop_blocks)
      ≡ some (traces, counters))
    × Distinct (flatten traces)
    × All (HotPath loop 60) traces
    × ((m : ℕ) → Reachable loop m → loop.frequency m ≢ 0 → elem m (flatten traces) ≡ true)
identify_traces-Distinct_example = identify_traces-Distinct loop 60 true loop_blocks loop-IsCfg

bfs-Reachable_example :
    (index : BfsIndex) × (bfs loop (length loop_blocks) ≡ some index)
    × IsIndex loop index
    × ((m : ℕ) → (elem m index.order ≡ true) ↔ Reachable loop m)
bfs-Reachable_example = bfs-Reachable loop loop_blocks loop-IsCfg

abbrev loop_search : Search
loop_search = record {
  profile = loop;
  threshold = 60;
  stats_on = true;
  index = record {
    order = loop_blocks;
    position = λ b. if ltb b 4 then some b else none;
    size = 4;
  };
}

best_successor-IsBest_example :
    IsBest
      (λ n.
        eligible 60
          (elem n (1 ∷ []))
          (ltb (bfs_pos loop_search.index n) (bfs_pos loop_search.index 1))
          (loop.probability 1 n))
      (λ n. loop.probability 1 n)
      (λ n. elem n (loop.successors 1))
      (best_successor loop_search (1 ∷ []) 1 no_counters).best
best_successor-IsBest_example = best_successor-IsBest loop_search (1 ∷ []) 1 no_counters

best_predecessor-IsBest_example :
    IsBest
      (λ n.
        eligible 60
          (elem n (1 ∷ []))
          (ltb (bfs_pos loop_search.index 1) (bfs_pos loop_search.index n))
          (loop.probability n 1))
      (λ n. loop.probability n 1)
      (λ n. elem n (loop.predecessors 1))
      (best_predecessor loop_search (1 ∷ []) 1 no_counters).best
best_predecessor-IsBest_example = best_predecessor-IsBest loop_search (1 ∷ []) 1 no_counters
