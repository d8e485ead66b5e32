-- ===== src/Ddg.antt =====
-- include/ddg.hpp: the nodes of a data dependence graph, and the edges between them. A
-- `DDGNode*` is an address; `heap` holds the nodes that `new DDGNode()` made, `nodes` is the
-- vector of their addresses.
pub mod Edges
pub mod Build
pub use llvm_scheduling_reg_pres.Base.{update}
use llvm_scheduling_reg_pres.Base.{
  ℕ, ◌≡◌, Bool, true, false, List, [], ◌∷◌, ◌++◌, Option, none, some, ◌==◌, if◌then◌else◌, elem,
}
use llvm_scheduling_reg_pres.Base.Int.{ℤ, pos, succ_ℤ}
use llvm_scheduling_reg_pres.Ir.{
  Instr, Ir, Opcode, mul, udiv, sdiv, other_opcode, Class, load, store, call, binary,
}

pub record DdgNode : Type 0 where
  pub instr : ℕ
  pub delay : ℕ
  pub critical_path : ℕ
  pub pred_count : ℤ
  pub successors : List ℕ
  pub predecessors : List ℕ

pub record Ddg : Type 0 where
  pub nodes : List ℕ
  pub heap : ℕ → DdgNode

-- Ddg::leaves
unfoldable pub leaves_of : (ℕ → DdgNode) → List ℕ → List ℕ
leaves_of heap [] = []
leaves_of heap (n ∷ ns) = elim (heap n).predecessors [
  | [] ↦ n ∷ leaves_of heap ns
  | _ ↦ leaves_of heap ns
]

-- Ddg::roots
unfoldable pub roots_of : (ℕ → DdgNode) → List ℕ → List ℕ
roots_of heap [] = []
roots_of heap (n ∷ ns) = elim (heap n).successors [
  | [] ↦ n ∷ roots_of heap ns
  | _ ↦ roots_of heap ns
]

opcode_delay : Opcode → ℕ
opcode_delay mul = 2
opcode_delay udiv = 10
opcode_delay sdiv = 10
opcode_delay other_opcode = 1

unfoldable pub get_delay : Instr → ℕ
unfolding opcode_delay
get_delay i = elim i.class [ load ↦ 3 | store ↦ 1 | call ↦ 5 | binary op ↦ opcode_delay op | _ ↦ 1 ]

-- src->successors.push_back(dst)
abbrev push_successor : ℕ → ℕ → Ddg → Ddg
push_successor src dst g =
    let node = g.heap src in
    record g { heap = update g.heap src (record node { successors = node.successors ++ dst ∷ [] }) }

-- dst->predecessors.push_back(src); dst->predCount++
abbrev push_predecessor : ℕ → ℕ → Ddg → Ddg
push_predecessor src dst g =
    let node = g.heap dst in
    record g {
      heap = update g.heap dst (record node {
        predecessors = node.predecessors ++ src ∷ [];
        pred_count = succ_ℤ node.pred_count;
      });
    }

unfoldable pub add_edge : ℕ → ℕ → Ddg → Ddg
add_edge src dst g =
    if elem dst (g.heap src).successors
    then g
    else push_predecessor src dst (push_successor src dst g)
