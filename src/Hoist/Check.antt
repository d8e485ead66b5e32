-- ===== src/Hoist/Check.antt =====
-- include/applySchedule.hpp: the checks that a move to an earlier block of the trace has to pass.
use llvm_scheduling_reg_pres.Base.{
  ℕ, Bool, true, false, not, ◌&&◌, List, [], ◌∷◌, Option, none, some, ◌==◌, if◌then◌else◌, leb,
}
use llvm_scheduling_reg_pres.Base.Int.{ℤ, pos, negsuc, ltb_ℤ, ◌+ℤ◌}
use llvm_scheduling_reg_pres.Ir.{Ir, Value, as_instruction}
use llvm_scheduling_reg_pres.Ir.BitVec.{BitVec, count}
use llvm_scheduling_reg_pres.ListScheduler.{PressureEnv, pressure_delta}

pub record HoistStats : Type 0 where
  pub candidates : ℕ
  pub done : ℕ
  pub blocked_dominance : ℕ
  pub blocked_loop : ℕ
  pub blocked_operand : ℕ
  pub blocked_unsafe : ℕ
  pub blocked_pressure : ℕ

-- `block_dominates` and `dominates` are DominatorTree::dominates, `loop_of` is LoopInfo::getLoopFor,
-- `is_safe` is isSafeToSpeculativelyExecute.
pub record Hoister : Type 0 where
  pub env : PressureEnv
  pub is_loop_header : ℕ → Bool
  pub loop_of : ℕ → Option ℕ
  pub block_dominates : ℕ → ℕ → Bool
  pub dominates : (ℕ → List ℕ) → ℕ → ℕ → Bool
  pub is_safe : (ℕ → List ℕ) → ℕ → ℕ → Bool
  pub budget : ℕ
  pub use_pressure : Bool
  pub stats_on : Bool

-- `live` is dynamicLive; `parent` is Instruction::getParent, which a move changes.
pub record HoistState : Type 0 where
  pub contents : ℕ → List ℕ
  pub parent : ℕ → ℕ
  pub live : ℕ → BitVec
  pub stats : HoistStats

-- BlockReason
pub data Reason : Type 0 where
  no_reason loop dominance operand unsafe pressure : Reason

-- std::atoi of SCHED_PRESSURE_BUDGET, if it is set
unfoldable pub get_pressure_budget : Option ℤ → ℕ
get_pressure_budget none = 12
get_pressure_budget (some (pos n)) = if leb 1 n then n else 12
get_pressure_budget (some (negsuc n)) = 12

abbrev pub is_same_loop_or_outer : Hoister → ℕ → ℕ → Bool
is_same_loop_or_outer h from target = elim (h.loop_of from) [
  | none ↦ elim (h.loop_of target) [ none ↦ true | some _ ↦ false ]
  | some l ↦ elim (h.loop_of target) [ none ↦ false | some k ↦ l == k ]
]

-- BasicBlock::getTerminator: the last instruction, if it is a terminator
abbrev pub terminator_of : Ir → List ℕ → Option ℕ
terminator_of ir [] = none
terminator_of ir (i ∷ []) = if (ir i).is_terminator then some i else none
terminator_of ir (i ∷ j ∷ js) = terminator_of ir (j ∷ js)

abbrev pub operands_dominate : Hoister → (ℕ → List ℕ) → (point : ℕ) → List Value → Bool
operands_dominate h contents point [] = true
operands_dominate h contents point (v ∷ vs) =
    let rest = operands_dominate h contents point vs in
    elim (as_instruction v) [
      | none ↦ rest
      | some def ↦ if h.dominates contents def point then rest else false
    ]

abbrev pub over_budget : Hoister → HoistState → ℕ → ℕ → Bool
over_budget h st i target =
    let delta = pressure_delta (record h.env { parent = st.parent }) i (st.live target) in
    ltb_ℤ (pos h.budget) (pos (count (st.live target)) +ℤ delta)

-- Why `i` cannot move from the block `orig` to the block `target`: `no_reason` if it can.
unfoldable pub check : Hoister → HoistState → (orig i target : ℕ) → Reason
check h st orig i target =
    if h.is_loop_header target
    then loop
    else if not (is_same_loop_or_outer h orig target)
    then loop
    else if not (h.block_dominates target orig)
    then dominance
    else elim (terminator_of h.env.ir (st.contents target)) [
      | none ↦ unsafe
      | some point ↦
          if not (operands_dominate h st.contents point (h.env.ir i).operands)
          then operand
          else if not (h.is_safe st.contents i point)
          then unsafe
          else if h.use_pressure && over_budget h st i target
          then pressure
          else no_reason
    ]
