-- ===== src/ListScheduler/Pressure.antt =====
-- include/listScheduler.hpp: pressureDelta and updateLiveSet.
use llvm_scheduling_reg_pres.Base.{
  ℕ, Bool, false, not, ◌&&◌, List, [], ◌∷◌, Option, none, some, if◌then◌else◌,
}
use llvm_scheduling_reg_pres.Base.Int.{ℤ, pos, pred_ℤ}
use llvm_scheduling_reg_pres.Ir.{Ir, Value, instruction}
use llvm_scheduling_reg_pres.Ir.Values.{ValueIndex}
use llvm_scheduling_reg_pres.Ir.BitVec.{BitVec, test, set, reset}
use llvm_scheduling_reg_pres.Liveness.{BlockStateLiveness}

-- What pressureDelta reads besides the live set. `parent` is Instruction::getParent.
pub record PressureEnv : Type 0 where
  pub ir : Ir
  pub parent : ℕ → ℕ
  pub universe_index : ValueIndex
  pub liveness : ℕ → BlockStateLiveness

-- The bit of the value that `i` produces, if it produces one that has a bit.
abbrev pub result_bit : PressureEnv → ℕ → Option ℕ
result_bit env i = if (env.ir i).is_void then none else env.universe_index (instruction i)

abbrev pub produced : PressureEnv → ℕ → BitVec → ℤ
produced env i live = elim (result_bit env i) [
  | none ↦ pos 0
  | some idx ↦ if test live idx then pos 0 else pos 1
]

-- Is the bit live, and not live out of the block?
abbrev pub dies : BitVec → BitVec → Option ℕ → Bool
dies out live none = false
dies out live (some idx) = test live idx && not (test out idx)

abbrev pub operand_delta : PressureEnv → BitVec → BitVec → List Value → ℤ → ℤ
operand_delta env out live [] delta = delta
operand_delta env out live (v ∷ vs) delta =
    operand_delta env out live vs
      (if dies out live (env.universe_index v) then pred_ℤ delta else delta)

unfoldable pub pressure_delta : PressureEnv → ℕ → BitVec → ℤ
pressure_delta env i live =
    operand_delta env (env.liveness (env.parent i)).out_set live (env.ir i).operands
      (produced env i live)

abbrev pub kill_operands : PressureEnv → BitVec → List Value → BitVec → BitVec
kill_operands env out [] live = live
kill_operands env out (v ∷ vs) live = kill_operands env out vs (elim (env.universe_index v) [
  | none ↦ live
  | some idx ↦ if test out idx then live else reset live idx
])

unfoldable pub update_live_set : PressureEnv → ℕ → BitVec → BitVec
update_live_set env i live =
    kill_operands env (env.liveness (env.parent i)).out_set (env.ir i).operands
      (elim (result_bit env i) [ none ↦ live | some idx ↦ set live idx ])
