-- ===== src/Ir/Function.antt =====
-- What the analyses and the passes read of an `llvm::Function`: its arguments, its blocks in layout
-- order (the entry block first), the instructions of each, and the edges between blocks.
use mathlib.Core.List.{flatten}
use llvm_scheduling_reg_pres.Base.{ℕ, not, List, ◌∷◌, ◌++◌, map, select}
use llvm_scheduling_reg_pres.Ir.{Ir, Value, argument, instruction}

pub record Function : Type 0 where
  pub args : List ℕ
  pub entry : ℕ
  pub others : List ℕ
  pub contents : ℕ → List ℕ
  pub ir : Ir
  pub successors : ℕ → List ℕ
  pub predecessors : ℕ → List ℕ

abbrev pub blocks_of : Function → List ℕ
blocks_of f = f.entry ∷ f.others

abbrev pub instructions_of : Function → List ℕ
instructions_of f = flatten (map f.contents (blocks_of f))

-- The instructions that produce a value, in layout order.
abbrev pub definitions_of : Function → List ℕ
definitions_of f = select (λ i. not (f.ir i).is_void) (instructions_of f)

-- args + non-void instructions, once per function
abbrev pub universe_of : Function → List Value
universe_of f = map argument f.args ++ map instruction (definitions_of f)
