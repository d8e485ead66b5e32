-- ===== src/PressureSamples.antt =====
-- What pressureDelta and updateLiveSet do with a multiplication, and their theorem there.
use llvm_scheduling_reg_pres.Base.{
  ℕ, ◌≡◌, ◌<◌, refl, true, false, [], ◌∷◌, some, elem, Distinct, arith, length,
}
use llvm_scheduling_reg_pres.Base.Int.{pos, negsuc, ◌+ℤ◌}
use llvm_scheduling_reg_pres.Ir.{binary, mul, argument}
use llvm_scheduling_reg_pres.Ir.BitVec.{BitVec, count}
use llvm_scheduling_reg_pres.Ir.Values.{build_value_index}
use llvm_scheduling_reg_pres.ListScheduler.{
  PressureEnv, result_bit, pressure_delta, update_live_set,
}
use llvm_scheduling_reg_pres.ListScheduler.Delta.{operand_bits, update_live_set-pressure_delta}
use llvm_scheduling_reg_pres.Samples.{pure, sample_ir, sample_env}

abbrev sample_live : BitVec
sample_live = true ∷ true ∷ false ∷ false ∷ []

-- The multiplication makes a value and ends one, so that the pressure stays.
mul_result :
    (r : ℕ)
    → result_bit sample_env 3 ≡ some r
    → (r < length sample_live) × (elem r (operand_bits sample_env (sample_ir 3).operands) ≡ false)
unfolding build_value_index
mul_result r e = ground arith

mul_operands-Distinct : Distinct (operand_bits sample_env (sample_ir 3).operands)
unfolding build_value_index
mul_operands-Distinct = (refl, tt)

update_live_set-pressure_delta_example :
    pos (count sample_live) +ℤ pressure_delta sample_env 3 sample_live
    ≡ pos (count (update_live_set sample_env 3 sample_live))
update_live_set-pressure_delta_example =
    update_live_set-pressure_delta sample_env 3 sample_live mul_result mul_operands-Distinct

-- %3 = mul %a1, %a1
abbrev square_env : PressureEnv
square_env = record sample_env { ir = λ _. pure (binary mul) (argument 1 ∷ argument 1 ∷ []) }

-- The operand that stands there twice counts twice: the delta is -1, the number of live values stays.
run_square :
    (pressure_delta square_env 3 sample_live ≡ negsuc 0)
    × (count sample_live ≡ 2)
    × (count (update_live_set square_env 3 sample_live) ≡ 2)
unfolding pressure_delta update_live_set build_value_index ◌+ℤ◌
run_square = (refl, refl, refl)
