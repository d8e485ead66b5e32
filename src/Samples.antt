-- ===== src/Samples.antt =====
-- Runs of the definitions on small inputs, and the theorems at such inputs.
use llvm_scheduling_reg_pres.Critical.Bound.{compute_critical_path-bound}
use llvm_scheduling_reg_pres.Base.{
  ◌≤◌, ◌*◌, length, Option, get_elem?, ℕ, ◌≡◌, ◌≢◌, ◌<◌, ◌↔◌, refl, true, false, List, [], ◌∷◌,
  none, some, ◌==◌, elem, if◌then◌else◌, Distinct, Before, Perm, arith, select, not, ◌&&◌,
}
use mathlib.Core.List.{flatten}
use llvm_scheduling_reg_pres.Base.Int.{pos}
use llvm_scheduling_reg_pres.Ir.{
  Instr, Ir, Class, phi, load, store, other, binary, mul, other_opcode, instruction, argument,
  constant, is_phi, Value,
}
use llvm_scheduling_reg_pres.Ir.Values.{build_value_index}
use llvm_scheduling_reg_pres.Ir.Index.{has_value, build_value_index-get_elem?}
use llvm_scheduling_reg_pres.Ddg.{Ddg, get_delay, add_edge, leaves_of, roots_of}
use llvm_scheduling_reg_pres.Ddg.Edges.{IsWf, edge, edge-add_edge, add_edge-IsWf, nodes-add_edge}
use llvm_scheduling_reg_pres.Ddg.Build.{build_ddg, build_local_ddg}
use llvm_scheduling_reg_pres.Ddg.Build.Correct.{
  Represents, DependsOn, WaitsFor, build_ddg-Represents, build_local_ddg-Represents,
}
use llvm_scheduling_reg_pres.Critical.{compute_critical_path}
use llvm_scheduling_reg_pres.Critical.Lengths.{cp, SameShape}
use llvm_scheduling_reg_pres.Critical.Forward.{OperandsFirst, HasLongest, built-HasLongest}
use llvm_scheduling_reg_pres.Critical.Longest.{
  IsLongest, compute_critical_path-SameShape, compute_critical_path-IsLongest,
}
use llvm_scheduling_reg_pres.ListScheduler.{
  PressureEnv, pressure_delta, update_live_set, Job, SchedState, pick_best, node_cp, node_delta,
  list_schedule, instrs,
}
use llvm_scheduling_reg_pres.ListScheduler.Choice.{IsFirstBest, pick_best-IsFirstBest}
use llvm_scheduling_reg_pres.ListScheduler.Order.{IsTopological, Blocked}
use llvm_scheduling_reg_pres.ListScheduler.Correct.{
  list_schedule-IsTopological, list_schedule_complete,
}
use llvm_scheduling_reg_pres.Legality.{reorder_block_within_regions, anchor_of}
use llvm_scheduling_reg_pres.Legality.Reference.{rebuilt, reorder_block-rebuilt}
use llvm_scheduling_reg_pres.Legality.Order.{
  anchors_only, reorder_block-perm, reorder_block-anchors_only, reorder_block-Before,
}
use llvm_scheduling_reg_pres.Local.{LocalState, schedule_block, run_local_scheduler}
use llvm_scheduling_reg_pres.Local.Block.{IsLegal}
use llvm_scheduling_reg_pres.Local.Correct.{run_local_scheduler-IsLegal}

abbrev pub pure : Class → List Value → Instr
pure class operands = record {
  class = class;
  operands = operands;
  is_void = false;
  is_token = false;
  is_terminator = false;
  is_eh_pad = false;
  may_read_or_write_memory = false;
  may_have_side_effects = false;
}

-- %0 = phi; %1 = load %a0; %2 = add %a1, 1; %3 = mul %a1, %a2; %4 = add %2, %3; store %4, %a0; br
abbrev pub sample_ir : Ir
sample_ir i =
    if i == 0
    then pure phi (constant 0 ∷ [])
    else if i == 1
    then record (pure load (argument 0 ∷ [])) { may_read_or_write_memory = true }
    else if i == 2
    then pure (binary other_opcode) (argument 1 ∷ constant 1 ∷ [])
    else if i == 3
    then pure (binary mul) (argument 1 ∷ argument 2 ∷ [])
    else if i == 4
    then pure (binary other_opcode) (instruction 2 ∷ instruction 3 ∷ [])
    else if i == 5
    then record (pure store (instruction 4 ∷ argument 0 ∷ [])) {
      is_void = true;
      may_read_or_write_memory = true;
      may_have_side_effects = true;
    }
    else record (pure other (constant 9 ∷ [])) { is_void = true; is_terminator = true }

abbrev sample_block : List ℕ
sample_block = 0 ∷ 1 ∷ 2 ∷ 3 ∷ 4 ∷ 5 ∷ 6 ∷ []

abbrev pub sample_env : PressureEnv
sample_env = record {
  ir = sample_ir;
  parent = λ _. 0;
  universe_index = build_value_index (argument 0 ∷ argument 1 ∷ instruction 2 ∷ instruction 3 ∷ []);
  liveness = λ _. record {
    in_set = true ∷ true ∷ false ∷ false ∷ [];
    out_set = false ∷ false ∷ false ∷ false ∷ [];
    use_set = true ∷ true ∷ false ∷ false ∷ [];
    def_set = false ∷ false ∷ true ∷ true ∷ [];
  };
}

sample_block-Distinct : Distinct sample_block
sample_block-Distinct = ground arith

-- The multiplication, on the longer path, goes ahead of the addition.
run_sample :
    reorder_block_within_regions sample_ir (1 ∷ 3 ∷ 2 ∷ 4 ∷ 5 ∷ []) sample_block
    ≡ 0 ∷ 1 ∷ 3 ∷ 2 ∷ 4 ∷ 5 ∷ 6 ∷ []
unfolding reorder_block_within_regions
run_sample = refl

abbrev sample_state : LocalState
sample_state = record { contents = λ _. sample_block; peak = 0 }

-- The PHI, the load and the terminator stay; at most two values are live.
run_local_sample :
    ◌≡◌ {A = List ℕ × ℕ}
      (elim (run_local_scheduler sample_env true (0 ∷ []) sample_state) [
        | none ↦ ([], 0)
        | some st ↦ (st.contents 0, st.peak)
      ])
      (0 ∷ 1 ∷ 3 ∷ 2 ∷ 4 ∷ 5 ∷ 6 ∷ [], 2)
unfolding run_local_scheduler compute_critical_path build_local_ddg flatten add_edge list_schedule
    pick_best get_delay pressure_delta build_value_index reorder_block_within_regions
    update_live_set
run_local_sample = refl

run_local_scheduler-IsLegal_example :
    (end : LocalState) × (run_local_scheduler sample_env true (0 ∷ []) sample_state ≡ some end)
    × ((bb : ℕ)
        → elem bb (0 ∷ []) ≡ true
        → IsLegal sample_ir (sample_state.contents bb) (end.contents bb))
    × ((bb : ℕ) → elem bb (0 ∷ []) ≡ false → end.contents bb ≡ sample_state.contents bb)
run_local_scheduler-IsLegal_example =
    run_local_scheduler-IsLegal sample_env true (0 ∷ []) sample_state (refl, tt)
      (λ bb m. sample_block-Distinct)

abbrev sample_schedule : List ℕ
sample_schedule = 1 ∷ 3 ∷ 2 ∷ 4 ∷ 5 ∷ []

sample_schedule-Distinct : Distinct sample_schedule
sample_schedule-Distinct = ground arith

-- The product of 2 and 3 is used by 4.
reorder_block-Before_example :
    Before (reorder_block_within_regions sample_ir sample_schedule sample_block) 2 4
reorder_block-Before_example =
    reorder_block-Before sample_ir sample_schedule sample_block 2 4 sample_block-Distinct
      sample_schedule-Distinct (λ h. ground arith) (ground arith)

reorder_block-anchors_only_example :
    anchors_only
      (anchor_of sample_ir)
      (reorder_block_within_regions sample_ir sample_schedule sample_block)
    ≡ anchors_only (anchor_of sample_ir) sample_block
reorder_block-anchors_only_example =
    reorder_block-anchors_only sample_ir sample_schedule sample_block sample_block-Distinct

reorder_block-perm_example :
    Perm sample_block (reorder_block_within_regions sample_ir sample_schedule sample_block)
reorder_block-perm_example =
    reorder_block-perm sample_ir sample_schedule sample_block sample_block-Distinct

reorder_block-rebuilt_example :
    reorder_block_within_regions sample_ir sample_schedule sample_block
    ≡ rebuilt sample_schedule (anchor_of sample_ir) sample_block []
reorder_block-rebuilt_example =
    reorder_block-rebuilt sample_ir sample_schedule sample_block sample_block-Distinct

abbrev sample_trace : List (List ℕ)
sample_trace = (0 ∷ 1 ∷ 2 ∷ []) ∷ (3 ∷ 4 ∷ 5 ∷ 6 ∷ []) ∷ []

sample_trace-Distinct : Distinct (flatten sample_trace)
unfolding flatten
sample_trace-Distinct = ground arith

build_ddg-Represents_example :
    Represents sample_ir
      (select (λ i. not (is_phi (sample_ir i))) (flatten sample_trace))
      (DependsOn
        (λ i. not (is_phi (sample_ir i)) && not (sample_ir i).is_terminator)
        (λ i. not (is_phi (sample_ir i)) && not (sample_ir i).is_terminator)
        sample_ir
        sample_trace)
      (build_ddg sample_ir sample_trace)
build_ddg-Represents_example = build_ddg-Represents sample_ir sample_trace sample_trace-Distinct

build_local_ddg-Represents_example :
    Represents sample_ir sample_block
      (WaitsFor sample_ir sample_block)
      (build_local_ddg sample_ir sample_block)
build_local_ddg-Represents_example =
    build_local_ddg-Represents sample_ir sample_block sample_block-Distinct

-- Nodes 0, 1 and 2 for the instructions 2, 3 and 4 of `sample_ir`, without edges.
abbrev isolated : Ddg
isolated = record {
  nodes = 0 ∷ 1 ∷ 2 ∷ [];
  heap = λ n. record {
    instr = if n == 0 then 2 else if n == 1 then 3 else 4;
    delay = if n == 1 then 2 else 1;
    critical_path = 0;
    pred_count = pos 0;
    successors = [];
    predecessors = [];
  };
}

isolated-IsWf : IsWf isolated
isolated-IsWf = record {
  mirrored = λ a b. refl;
  distinct_succs = λ a. tt;
  distinct_preds = λ a. tt;
  counted = λ a. refl;
  closed_from = λ a b e. absurd (ground arith);
  closed_to = λ a b e. absurd (ground arith);
}

abbrev joined : Ddg
joined = add_edge 1 2 (add_edge 0 2 isolated)

run_joined :
    (leaves_of joined.heap joined.nodes ≡ 0 ∷ 1 ∷ []) × (roots_of joined.heap joined.nodes ≡ 2 ∷ [])
unfolding add_edge leaves_of roots_of
run_joined = (refl, refl)

add_edge-IsWf_example : IsWf (add_edge 0 2 isolated)
add_edge-IsWf_example = add_edge-IsWf 0 2 isolated refl refl isolated-IsWf

joined-IsWf : IsWf joined
joined-IsWf =
    add_edge-IsWf 1 2 (add_edge 0 2 isolated) (rw (nodes-add_edge 0 2 isolated) refl)
      (rw (nodes-add_edge 0 2 isolated) refl) (add_edge-IsWf 0 2 isolated refl refl isolated-IsWf)

joined-Distinct : Distinct joined.nodes
unfolding add_edge
joined-Distinct = (refl, (refl, (refl, tt)))

joined_forward : (a b : ℕ) → edge joined a b ≡ true → a < b
joined_forward a b e =
    ground (arith, edge-add_edge 1 2 (add_edge 0 2 isolated) a b, edge-add_edge 0 2 isolated a b)

compute_critical_path-SameShape_example :
    (g' : Ddg) × (compute_critical_path joined ≡ some g') × SameShape joined g'
compute_critical_path-SameShape_example =
    compute_critical_path-SameShape joined joined-IsWf joined-Distinct

compute_critical_path-IsLongest_example :
    (g' : Ddg) × (compute_critical_path joined ≡ some g')
    × ((n : ℕ) → elem n joined.nodes ≡ true → IsLongest joined n (cp g' n))
compute_critical_path-IsLongest_example =
    compute_critical_path-IsLongest joined joined-IsWf joined-Distinct joined_forward

abbrev sample_job : Job
sample_job = record { ddg = joined; env = sample_env; use_reg_pressure = true; stats_on = true }

list_schedule-IsTopological_example :
    (picked : List ℕ) × (end : SchedState) × (list_schedule sample_job (true ∷ true ∷ []) 0
      ≡ some (instrs joined picked, end))
    × IsTopological sample_job picked
list_schedule-IsTopological_example =
    list_schedule-IsTopological sample_job joined-IsWf joined-Distinct (true ∷ true ∷ []) 0

list_schedule_complete_example :
    (picked : List ℕ) × (end : SchedState) × (list_schedule sample_job (true ∷ true ∷ []) 0
      ≡ some (instrs joined picked, end))
    × ((n : ℕ) → elem n joined.nodes ≡ true → (elem n picked ≡ false) ↔ Blocked sample_job n)
list_schedule_complete_example =
    list_schedule_complete sample_job joined-IsWf joined-Distinct (true ∷ true ∷ []) 0
      joined_forward

queue-not_empty : ◌≢◌ {A = List ℕ} (0 ∷ 1 ∷ []) []
queue-not_empty e = ground arith

pick_best-IsFirstBest_example :
    (n : ℕ) × (pick_best joined sample_env true (true ∷ []) (0 ∷ 1 ∷ []) ≡ some n)
    × IsFirstBest (node_cp joined) (node_delta joined sample_env true (true ∷ [])) (0 ∷ 1 ∷ []) n
pick_best-IsFirstBest_example =
    pick_best-IsFirstBest joined sample_env true (true ∷ []) (0 ∷ 1 ∷ []) queue-not_empty

abbrev sample_universe : List Value
sample_universe = argument 0 ∷ argument 1 ∷ instruction 2 ∷ instruction 3 ∷ []

build_value_index-get_elem?_example :
    ((k : ℕ) (v : Value)
      → get_elem? sample_universe k ≡ some v
      → build_value_index sample_universe v ≡ some k)
    × ((v : Value)
        → has_value v sample_universe ≡ false
        → build_value_index sample_universe v ≡ none)
build_value_index-get_elem?_example =
    build_value_index-get_elem? sample_universe (refl, (refl, (refl, (refl, tt))))

-- With a use of the PHI in front, the whole run stays as it is, though the multiplication would go
-- first.
run_phi_user :
    ◌≡◌ {A = Option (List ℕ × ℕ)}
      (schedule_block
        (record sample_env {
          ir = λ i. if i == 2 then pure (binary other_opcode) (instruction 0 ∷ []) else sample_ir i;
        })
        false
        []
        sample_block
        0)
      (some (sample_block, 0))
unfolding schedule_block compute_critical_path build_local_ddg flatten add_edge list_schedule
    pick_best get_delay pressure_delta build_value_index reorder_block_within_regions
    update_live_set
run_phi_user = refl

compute_critical_path-bound_example :
    ((g : Ddg) × (compute_critical_path (build_ddg sample_ir sample_trace) ≡ some g)
      × ((n : ℕ) → cp g n ≤ 10 * length (flatten sample_trace)))
    × ((g : Ddg) × (compute_critical_path (build_local_ddg sample_ir sample_block) ≡ some g)
        × ((n : ℕ) → cp g n ≤ 10 * length sample_block))
compute_critical_path-bound_example =
    compute_critical_path-bound sample_ir sample_trace sample_block sample_trace-Distinct
      sample_block-Distinct

sample_trace-OperandsFirst :
    OperandsFirst (λ i. not (is_phi (sample_ir i))) sample_ir (flatten sample_trace)
unfolding flatten
sample_trace-OperandsFirst i j mi mj p u = ground arith

sample_block-OperandsFirst : OperandsFirst (λ _. true) sample_ir sample_block
sample_block-OperandsFirst i j mi mj p u = ground arith

built-HasLongest_example :
    HasLongest (build_ddg sample_ir sample_trace)
    × HasLongest (build_local_ddg sample_ir sample_block)
built-HasLongest_example =
    built-HasLongest sample_ir sample_trace sample_block sample_trace-Distinct
      sample_trace-OperandsFirst sample_block-Distinct sample_block-OperandsFirst
