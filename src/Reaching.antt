-- ===== src/Reaching.antt =====
-- include/reaching.hpp: computeReaching.
pub mod Sets
pub mod Visits
pub mod Collect
pub mod Step
pub mod Correct
use llvm_scheduling_reg_pres.Base.{
  ℕ, zero, suc, ◌*◌, Bool, true, false, List, [], ◌∷◌, ◌++◌, Option, none, some, bind,
  if◌then◌else◌, length, elem, get_elem?,
}
use llvm_scheduling_reg_pres.Ir.Function.{Function, blocks_of, definitions_of}
use llvm_scheduling_reg_pres.Ir.BitVec.{BitVec, zeros, or_bits, and_bits, flip_bits, same_bits}
use llvm_scheduling_reg_pres.Dataflow.{iterate, fill}
use llvm_scheduling_reg_pres.Dataflow.Union.{union_from}
use llvm_scheduling_reg_pres.Reaching.Sets.{BlockStateReaching, Names, collect, empty_sets, absent}

-- if (std::find(order.begin(), order.end(), succ) == order.end()) order.push_back(succ);
abbrev pub visit : ℕ → List ℕ → List ℕ
visit succ order = if elem succ order then order else order ++ succ ∷ []

unfoldable pub visit_succs : List ℕ → List ℕ → List ℕ
visit_succs [] order = order
visit_succs (s ∷ ss) order = visit_succs ss (visit s order)

-- for (size_t i = 0; i < order.size(); ++i), from `i` on
unfoldable pub visit_from : (ℕ → List ℕ) → (fuel : ℕ) → ℕ → List ℕ → Option (List ℕ)
unfolding visit_succs
visit_from succs zero i order = elim (get_elem? order i) [ none ↦ some order | some _ ↦ none ]
visit_from succs (suc fuel) i order = elim (get_elem? order i) [
  | none ↦ some order
  | some bb ↦ visit_from succs fuel (suc i) (visit_succs (succs bb) order)
]

-- The processing order. The loop goes through each block once.
unfoldable pub visit_order : Function → Option (List ℕ)
unfolding visit_from
visit_order f = visit_from f.successors (length (blocks_of f)) 0 (f.entry ∷ [])

-- The lambda meetUnion on the `out` sets of these blocks.
abbrev pub meet_union : (ℕ → BitVec) → List ℕ → BitVec
meet_union V [] = []
meet_union V (p ∷ ps) = union_from (V p) V ps

-- IN[B]; without predecessors the empty set is the only one to meet.
abbrev pub pred_outs : (width : ℕ) → (ℕ → BitVec) → List ℕ → BitVec
pred_outs width V [] = zeros width
pred_outs width V (p ∷ ps) = meet_union V (p ∷ ps)

abbrev pub new_in : Function → (width : ℕ) → ℕ → (ℕ → BlockStateReaching) → BitVec
new_in f width b st = pred_outs width (λ k. (st k).out_set) (f.predecessors b)

abbrev pub new_out : Function → (width : ℕ) → ℕ → (ℕ → BlockStateReaching) → BitVec
new_out f width b st =
    or_bits (st b).gen_set (and_bits (new_in f width b st) (flip_bits (st b).kill_set))

-- The body of the loop over the blocks.
pub reaching_step :
    Function → (width : ℕ) → ℕ → (ℕ → BlockStateReaching) → BlockStateReaching × Bool
reaching_step f width b st =
    if same_bits (new_out f width b st) (st b).out_set
    then (record (st b) { in_set = new_in f width b st }, false)
    else (record (st b) { in_set = new_in f width b st; out_set = new_out f width b st }, true)

-- The states before the fixed-point iteration.
abbrev pub first_sets : Function → Names → List ℕ → ℕ → BlockStateReaching
first_sets f names order =
    fill
      (λ b.
        collect f.ir names (definitions_of f) (f.contents b)
          (empty_sets (length (definitions_of f))))
      order (λ _. absent)

-- Each pass but the last sets a bit of `out` of some block.
unfoldable pub compute_reaching : Function → Names → Option (ℕ → BlockStateReaching)
unfolding iterate reaching_step visit_order collect
compute_reaching f names = bind (visit_order f) λ order.
    let width = length (definitions_of f) in
    iterate (reaching_step f width) (suc (length order * width)) order (first_sets f names order)
