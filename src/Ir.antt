-- ===== src/Ir.antt =====
-- What the passes read of LLVM IR. An `Instruction*` is an address, and `Ir` maps it to LLVM's
-- answers about that instruction; the passes never change these, only where instructions stand.
pub mod BitVec
pub mod Subset
pub mod Count
pub mod Values
pub mod Index
pub mod Function
use llvm_scheduling_reg_pres.Base.{ℕ, Bool, true, false, List, Option, none, some, ◌||◌, ◌==◌}

-- The `BinaryOperator` opcodes that `getDelay` tells apart.
pub data Opcode : Type 0 where
  mul udiv sdiv other_opcode : Opcode

-- What `isa<...>` answers. `call` is a `CallInst`, `call_terminator` another `CallBase`
-- (`InvokeInst`, `CallBrInst`).
pub data Class : Type 0 where
  phi alloca load store call call_terminator other : Class
  binary : Opcode → Class

-- A `Value*`: an instruction, an argument of the function, or anything else (constants, blocks).
pub data Value : Type 0 where
  instruction : ℕ → Value
  argument : ℕ → Value
  constant : ℕ → Value

pub record Instr : Type 0 where
  pub class : Class
  pub operands : List Value
  pub is_void : Bool
  pub is_token : Bool
  pub is_terminator : Bool
  pub is_eh_pad : Bool
  pub may_read_or_write_memory : Bool
  pub may_have_side_effects : Bool

abbrev pub Ir : Type 0
Ir = ℕ → Instr

-- isa<PHINode>(I)
abbrev pub is_phi : Instr → Bool
is_phi i = elim i.class [ phi ↦ true | _ ↦ false ]

-- isa<CallBase>(I)
abbrev pub is_call_base : Instr → Bool
is_call_base i = elim i.class [ call ↦ true | call_terminator ↦ true | _ ↦ false ]

-- isa<AllocaInst>(I)
abbrev pub is_alloca : Instr → Bool
is_alloca i = elim i.class [ alloca ↦ true | _ ↦ false ]

-- dyn_cast<Instruction>(V)
abbrev pub as_instruction : Value → Option ℕ
as_instruction (instruction i) = some i
as_instruction (argument i) = none
as_instruction (constant i) = none
