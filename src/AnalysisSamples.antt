-- ===== src/AnalysisSamples.antt =====
-- The analyses on a small function with a loop, and their theorems there.
use llvm_scheduling_reg_pres.Base.{
  Distinct, get_elem?, ℕ, ◌≡◌, ◌↔◌, ◌<◌, refl, true, false, List, [], ◌∷◌, Option, none, some, elem,
  if◌then◌else◌, ◌==◌, length, arith,
}
use mathlib.Core.List.{flatten}
use mathlib.Core.Option.{map}
use llvm_scheduling_reg_pres.Trace.{BfsIndex, bfs}
use llvm_scheduling_reg_pres.Trace.Paths.{IsCfg}
use llvm_scheduling_reg_pres.Trace.Reach.{Reachable}
use llvm_scheduling_reg_pres.Reaching.{compute_reaching, visit_order}
use llvm_scheduling_reg_pres.Dominators.{DomInfo, compute_dominators}
use llvm_scheduling_reg_pres.Base.{◌≢◌}
use llvm_scheduling_reg_pres.Dominators.Exists.{compute_dominators-idom}
use llvm_scheduling_reg_pres.Dominators.Step.{Avoids}
use llvm_scheduling_reg_pres.Dominators.Correct.{ListsPreds, compute_dominators-Avoids}
use llvm_scheduling_reg_pres.Reaching.Sets.{BlockStateReaching, Names}
use llvm_scheduling_reg_pres.Reaching.Visits.{cfg_of, visit_order-bfs}
use llvm_scheduling_reg_pres.Reaching.Correct.{ReachesEnd, compute_reaching-ReachesEnd}
use llvm_scheduling_reg_pres.Ir.Values.{build_value_index}
use llvm_scheduling_reg_pres.Ir.{Instr, Ir, other, instruction, argument}
use llvm_scheduling_reg_pres.Ir.Function.{definitions_of, Function, blocks_of, universe_of}
use llvm_scheduling_reg_pres.Ir.BitVec.{BitVec, test}
use llvm_scheduling_reg_pres.Liveness.{BlockStateLiveness, compute_liveness}
use llvm_scheduling_reg_pres.Liveness.Correct.{IsClosed, LiveIn, compute_liveness-LiveIn}

abbrev plain : Instr
plain = record {
  class = other;
  operands = [];
  is_void = false;
  is_token = false;
  is_terminator = false;
  is_eh_pad = false;
  may_read_or_write_memory = false;
  may_have_side_effects = false;
}

-- Block 0 computes 10 from the argument, block 1 computes 11 from 10 and goes back to itself or on to
-- block 2, which reads 11 and returns; 13 and 14 are branches.
abbrev pub looping_ir : Ir
looping_ir i =
    if i == 10
    then record plain { operands = argument 0 ∷ [] }
    else if i == 11
    then record plain { operands = instruction 10 ∷ [] }
    else if i == 12
    then record plain { operands = instruction 11 ∷ []; is_void = true; is_terminator = true }
    else record plain { is_void = true; is_terminator = true }

abbrev pub looping : Function
looping = record {
  args = 0 ∷ [];
  entry = 0;
  others = 1 ∷ 2 ∷ [];
  contents = λ b.
      if b == 0
      then 10 ∷ 13 ∷ []
      else if b == 1
      then 11 ∷ 14 ∷ []
      else if b == 2
      then 12 ∷ []
      else [];
  ir = looping_ir;
  successors = λ b. if b == 0 then 1 ∷ [] else if b == 1 then 1 ∷ 2 ∷ [] else [];
  predecessors = λ b. if b == 1 then 0 ∷ 1 ∷ [] else if b == 2 then 1 ∷ [] else [];
}

looping-IsClosed : IsClosed looping
looping-IsClosed a b m h = ground arith

-- The `in` and `out` sets of the three blocks.
abbrev sets_of : Option (ℕ → BlockStateLiveness) → List (BitVec × BitVec)
sets_of none = []
sets_of (some st) =
    ((st 0).in_set, (st 0).out_set)
    ∷ ((st 1).in_set, (st 1).out_set)
    ∷ ((st 2).in_set, (st 2).out_set)
    ∷ []

run_liveness :
    sets_of (compute_liveness looping)
    ≡ (true ∷ false ∷ false ∷ [], false ∷ true ∷ false ∷ [])
      ∷ (false ∷ true ∷ false ∷ [], false ∷ true ∷ true ∷ [])
      ∷ (false ∷ false ∷ true ∷ [], false ∷ false ∷ false ∷ [])
      ∷ []
unfolding compute_liveness build_value_index flatten
run_liveness = refl

compute_liveness-LiveIn_example :
    (st : ℕ → BlockStateLiveness) × (compute_liveness looping ≡ some st)
    × ((b idx : ℕ)
        → elem b (blocks_of looping) ≡ true
        → idx < length (universe_of looping)
        → ((test (st b).in_set idx ≡ true) ↔ LiveIn looping idx b)
          × ((test (st b).out_set idx ≡ true)
              ↔ ((s : ℕ) × (elem s (looping.successors b) ≡ true) × LiveIn looping idx s)))
compute_liveness-LiveIn_example = compute_liveness-LiveIn looping looping-IsClosed

pub looping-IsCfg : IsCfg (cfg_of looping) (blocks_of looping)
looping-IsCfg = record {
  distinct = ground arith;
  entry_in = refl;
  succ_in = λ a b m h. ground arith;
  pred_in = λ a b m h. (ground arith, ground arith);
}

looping-Distinct : Distinct (definitions_of looping)
unfolding flatten
looping-Distinct = (refl, (refl, tt))

-- The two definitions have different names.
abbrev named : Names
named i = some i

abbrev reaching_sets_of : Option (ℕ → BlockStateReaching) → List (BitVec × BitVec)
reaching_sets_of none = []
reaching_sets_of (some st) =
    ((st 0).in_set, (st 0).out_set)
    ∷ ((st 1).in_set, (st 1).out_set)
    ∷ ((st 2).in_set, (st 2).out_set)
    ∷ []

run_reaching :
    reaching_sets_of (compute_reaching looping named)
    ≡ (false ∷ false ∷ [], true ∷ false ∷ [])
      ∷ (true ∷ true ∷ [], true ∷ true ∷ [])
      ∷ (true ∷ true ∷ [], true ∷ true ∷ [])
      ∷ []
unfolding compute_reaching flatten
run_reaching = refl

-- With one name for both, the definition in block 1 kills the other one.
run_reaching_same_name :
    reaching_sets_of (compute_reaching looping (λ i. some 7))
    ≡ (false ∷ false ∷ [], true ∷ false ∷ [])
      ∷ (true ∷ true ∷ [], false ∷ true ∷ [])
      ∷ (false ∷ true ∷ [], false ∷ true ∷ [])
      ∷ []
unfolding compute_reaching flatten
run_reaching_same_name = refl

compute_reaching-ReachesEnd_example :
    (st : ℕ → BlockStateReaching) × (compute_reaching looping named ≡ some st)
    × ((b idx d : ℕ)
        → Reachable (cfg_of looping) b
        → get_elem? (definitions_of looping) idx ≡ some d
        → ((test (st b).out_set idx ≡ true) ↔ ReachesEnd looping named d b)
          × ((test (st b).in_set idx ≡ true) ↔ (
              (a : ℕ) × (elem a (looping.predecessors b) ≡ true)
              × Reachable (cfg_of looping) a
              × ReachesEnd looping named d a)))
compute_reaching-ReachesEnd_example =
    compute_reaching-ReachesEnd looping named looping-IsCfg looping-Distinct

visit_order-bfs_example :
    visit_order looping
    ≡ map (λ (e : BfsIndex). e.order) (bfs (cfg_of looping) (length (blocks_of looping)))
visit_order-bfs_example = visit_order-bfs looping looping-IsCfg

looping-ListsPreds : ListsPreds looping
looping-ListsPreds a b h = ground arith

abbrev doms_of : Option DomInfo → List (BitVec × Option ℕ)
doms_of none = []
doms_of (some info) =
    (info.dom 0, info.idom 0) ∷ (info.dom 1, info.idom 1) ∷ (info.dom 2, info.idom 2) ∷ []

-- 0 dominates 1, and 1 dominates 2.
run_dominators :
    doms_of (compute_dominators looping)
    ≡ (true ∷ false ∷ false ∷ [], none)
      ∷ (true ∷ true ∷ false ∷ [], some 0)
      ∷ (true ∷ true ∷ true ∷ [], some 1)
      ∷ []
unfolding compute_dominators
run_dominators = refl

compute_dominators-Avoids_example :
    (info : DomInfo) × (compute_dominators looping ≡ some info)
    × ((m : ℕ) → (elem m info.order ≡ true) ↔ Reachable (cfg_of looping) m)
    × ((b j d : ℕ)
        → Reachable (cfg_of looping) b
        → get_elem? info.order j ≡ some d
        → (test (info.dom b) j ≡ false) ↔ Avoids looping d b)
compute_dominators-Avoids_example =
    compute_dominators-Avoids looping looping-IsCfg looping-ListsPreds

compute_dominators-idom_example :
    (info : DomInfo) × (compute_dominators looping ≡ some info)
    × (info.idom looping.entry ≡ none)
    × ((b : ℕ)
        → Reachable (cfg_of looping) b
        → b ≢ looping.entry
        → (d : ℕ) × (info.idom b ≡ some d)
          × (d ≢ b)
          × (Avoids looping d b → ⊥)
          × ((c : ℕ)
              → Reachable (cfg_of looping) c
              → c ≢ b
              → (Avoids looping c b → ⊥)
              → c ≢ d
              → Avoids looping d c))
compute_dominators-idom_example = compute_dominators-idom looping looping-IsCfg looping-ListsPreds
