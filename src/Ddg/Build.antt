-- ===== src/Ddg/Build.antt =====
-- include/ddg.hpp, buildDDG, and include/localScheduler.hpp, buildLocalDDG. The two go through the
-- same three passes and differ in the instructions that they skip. An address is the number of
-- nodes that were made before. The loops over the blocks of a trace and the instructions of each
-- block go through `flatten trace`.
pub mod Nodes
pub mod Delays
pub mod Linked
pub mod Links
pub mod Orders
pub mod Correct
use mathlib.Core.List.{flatten}
use llvm_scheduling_reg_pres.Base.{
  ℕ, zero, suc, Bool, true, false, not, ◌&&◌, ◌||◌, List, [], ◌∷◌, ◌++◌, Option, none, some, ◌==◌,
  if◌then◌else◌,
}
use llvm_scheduling_reg_pres.Base.Int.{pos}
use llvm_scheduling_reg_pres.Ir.{Instr, Ir, Value, as_instruction, is_phi, is_call_base}
use llvm_scheduling_reg_pres.Ddg.{Ddg, DdgNode, update, get_delay, add_edge}

-- DenseMap<Instruction*, DDGNode*>; `none` is the null pointer that lookup returns.
abbrev pub NodeMap : Type 0
NodeMap = ℕ → Option ℕ

pub record Builder : Type 0 where
  pub ddg : Ddg
  pub instr_to_node : NodeMap
  pub fresh : ℕ

abbrev pub new_node : Ir → ℕ → DdgNode
new_node ir i = record {
  instr = i;
  delay = get_delay (ir i);
  critical_path = 0;
  pred_count = pos 0;
  successors = [];
  predecessors = [];
}

abbrev pub add_node : Ir → ℕ → Builder → Builder
add_node ir i b = record {
  ddg = record {
    nodes = b.ddg.nodes ++ b.fresh ∷ [];
    heap = update b.ddg.heap b.fresh (new_node ir i);
  };
  instr_to_node = update b.instr_to_node i (some b.fresh);
  fresh = suc b.fresh;
}

-- The first pass: a node for each instruction that is not skipped.
pub add_nodes : (has_node : ℕ → Bool) → Ir → List ℕ → Builder → Builder
add_nodes has_node ir [] b = b
add_nodes has_node ir (i ∷ is) b =
    add_nodes has_node ir is (if has_node i then add_node ir i b else b)

abbrev pub link_operand : (gives : ℕ → Bool) → NodeMap → ℕ → Value → Ddg → Ddg
link_operand gives m dst v g = elim (as_instruction v) [
  | none ↦ g
  | some def ↦ if gives def then elim (m def) [ none ↦ g | some src ↦ add_edge src dst g ] else g
]

pub link_operands : (gives : ℕ → Bool) → NodeMap → ℕ → List Value → Ddg → Ddg
link_operands gives m dst [] g = g
link_operands gives m dst (v ∷ vs) g = link_operands gives m dst vs (link_operand gives m dst v g)

-- The edges to one instruction.
pub link_instr : (takes gives : ℕ → Bool) → Ir → NodeMap → ℕ → Ddg → Ddg
unfolding link_operands
link_instr takes gives ir m i g =
    if takes i
    then elim (m i) [ none ↦ g | some dst ↦ link_operands gives m dst (ir i).operands g ]
    else g

-- The second pass: an edge from the definition of each operand.
pub link_all : (takes gives : ℕ → Bool) → Ir → NodeMap → List ℕ → Ddg → Ddg
unfolding link_instr
link_all takes gives ir m [] g = g
link_all takes gives ir m (i ∷ is) g =
    link_all takes gives ir m is (link_instr takes gives ir m i g)

-- isa<CallBase>(&I) || I.mayReadOrWriteMemory() || I.mayHaveSideEffects()
abbrev pub is_ordered : Instr → Bool
is_ordered i = is_call_base i || i.may_read_or_write_memory || i.may_have_side_effects

abbrev pub order_pair : NodeMap → ℕ → ℕ → Ddg → Ddg
order_pair m prev i g = elim (m prev) [
  | none ↦ g
  | some src ↦ elim (m i) [ none ↦ g | some dst ↦ add_edge src dst g ]
]

pub order_after : NodeMap → List ℕ → ℕ → Ddg → Ddg
order_after m [] i g = g
order_after m (prev ∷ prevs) i g = order_after m prevs i (order_pair m prev i g)

-- The third pass, over one block, with `ordered_ops` as it stands at an instruction.
pub order_block : Ir → NodeMap → List ℕ → List ℕ → Ddg → Ddg
unfolding order_after
order_block ir m ordered_ops [] g = g
order_block ir m ordered_ops (i ∷ is) g =
    order_block ir m (if is_ordered (ir i) then ordered_ops ++ i ∷ [] else ordered_ops) is
      (if is_ordered (ir i) then order_after m ordered_ops i g else g)

pub order_blocks : Ir → NodeMap → List (List ℕ) → Ddg → Ddg
unfolding order_block
order_blocks ir m [] g = g
order_blocks ir m (block ∷ blocks) g = order_blocks ir m blocks (order_block ir m [] block g)

abbrev pub no_nodes : Builder
no_nodes = record {
  ddg = record {
    nodes = [];
    heap = λ _. record {
      instr = 0;
      delay = 0;
      critical_path = 0;
      pred_count = pos 0;
      successors = [];
      predecessors = [];
    };
  };
  instr_to_node = λ _. none;
  fresh = 0;
}

-- The three passes, over the blocks of a trace.
pub build : (has_node takes gives : ℕ → Bool) → Ir → List (List ℕ) → Ddg
unfolding add_nodes link_all order_blocks
build has_node takes gives ir blocks =
    let b = add_nodes has_node ir (flatten blocks) no_nodes in
    order_blocks ir b.instr_to_node blocks
      (link_all takes gives ir b.instr_to_node (flatten blocks) b.ddg)

-- One round of buildDDG: PHIs get no node, and no edge by an operand leads from or to a terminator.
unfoldable pub build_ddg : Ir → List (List ℕ) → Ddg
unfolding build
build_ddg ir trace =
    let has_node = λ (i : ℕ). not (is_phi (ir i)) in
    let linked = λ (i : ℕ). not (is_phi (ir i)) && not (ir i).is_terminator in
    build has_node linked linked ir trace

-- buildLocalDDG: nothing is skipped.
unfoldable pub build_local_ddg : Ir → List ℕ → Ddg
unfolding build
build_local_ddg ir block = build (λ _. true) (λ _. true) (λ _. true) ir (block ∷ [])
