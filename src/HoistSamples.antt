-- ===== src/HoistSamples.antt =====
-- A schedule applied to a trace of two blocks, and the theorems there.
use llvm_scheduling_reg_pres.Base.{
  ℕ, ◌≡◌, refl, Bool, true, false, List, [], ◌∷◌, none, elem, if◌then◌else◌, ◌==◌, Distinct, arith,
}
use llvm_scheduling_reg_pres.Base.Int.{◌+ℤ◌}
use llvm_scheduling_reg_pres.Ir.{
  Instr, Class, other, store, binary, mul, instruction, argument, Value,
}
use llvm_scheduling_reg_pres.Ir.Values.{build_value_index}
use llvm_scheduling_reg_pres.Legality.{reorder_block_within_regions}
use llvm_scheduling_reg_pres.ListScheduler.{pressure_delta}
use llvm_scheduling_reg_pres.Hoist.{Hoister, get_pressure_budget, check, apply_schedule}
use llvm_scheduling_reg_pres.Hoist.Placed.{IsPlaced, Keeps}
use llvm_scheduling_reg_pres.Passes.{no_hoists}
use llvm_scheduling_reg_pres.Hoist.Kept.{apply_schedule-Keeps}
use llvm_scheduling_reg_pres.Hoist.Upward.{MovedUp, apply_schedule-MovedUp}
use llvm_scheduling_reg_pres.Hoist.Anchors.{SameAnchors, apply_schedule-SameAnchors}
use llvm_scheduling_reg_pres.Hoist.Balance.{IsBalanced, apply_schedule-IsBalanced}

abbrev instr_of : Class → List Value → (terminator effects : Bool) → Instr
instr_of class operands terminator effects = record {
  class = class;
  operands = operands;
  is_void = if terminator then true else effects;
  is_token = false;
  is_terminator = terminator;
  is_eh_pad = false;
  may_read_or_write_memory = effects;
  may_have_side_effects = effects;
}

-- Block 0: br. Block 1: %1 = mul %a0, %a0; store %1; br.
abbrev two_blocks : ℕ → List ℕ
two_blocks bb = if bb == 0 then 0 ∷ [] else if bb == 1 then 1 ∷ 2 ∷ 3 ∷ [] else []

abbrev hoister : Hoister
hoister = record {
  env = record {
    ir = λ i.
        if i == 1
        then instr_of (binary mul) (argument 0 ∷ argument 0 ∷ []) false false
        else if i == 2
        then instr_of store (instruction 1 ∷ []) false true
        else instr_of other [] true false;
    parent = λ i. if i == 0 then 0 else 1;
    universe_index = build_value_index (argument 0 ∷ instruction 1 ∷ []);
    liveness = λ _. record {
      in_set = true ∷ false ∷ [];
      out_set = true ∷ false ∷ [];
      use_set = true ∷ false ∷ [];
      def_set = false ∷ true ∷ [];
    };
  };
  is_loop_header = λ _. false;
  loop_of = λ _. none;
  block_dominates = λ a b. true;
  dominates = λ contents def point. true;
  is_safe = λ contents i point. true;
  budget = get_pressure_budget none;
  use_pressure = true;
  stats_on = true;
}

-- The multiplication moves up; the store, an anchor, is a candidate that is blocked.
run_hoist :
    let end =
      apply_schedule hoister (1 ∷ 2 ∷ []) (0 ∷ 1 ∷ []) two_blocks hoister.env.parent no_hoists in
    (end.contents 0 ≡ 1 ∷ 0 ∷ [])
    × (end.contents 1 ≡ 2 ∷ 3 ∷ [])
    × (end.stats ≡ record no_hoists { candidates = 2; done = 1; blocked_unsafe = 1 })
unfolding apply_schedule check reorder_block_within_regions pressure_delta build_value_index
    get_pressure_budget ◌+ℤ◌
run_hoist = (refl, refl, refl)

two_blocks-Distinct : (bb : ℕ) → elem bb (0 ∷ 1 ∷ []) ≡ true → Distinct (two_blocks bb)
two_blocks-Distinct bb m = ground arith

apply_schedule-SameAnchors_example :
    SameAnchors hoister two_blocks
      (apply_schedule hoister
        (1 ∷ 2 ∷ [])
        (0 ∷ 1 ∷ [])
        two_blocks
        hoister.env.parent
        no_hoists).contents
apply_schedule-SameAnchors_example =
    apply_schedule-SameAnchors hoister (1 ∷ 2 ∷ []) (0 ∷ 1 ∷ []) two_blocks hoister.env.parent
      no_hoists (refl, (refl, tt)) two_blocks-Distinct

apply_schedule-IsBalanced_example :
    IsBalanced
      (apply_schedule hoister
        (1 ∷ 2 ∷ [])
        (0 ∷ 1 ∷ [])
        two_blocks
        hoister.env.parent
        no_hoists).stats
apply_schedule-IsBalanced_example =
    apply_schedule-IsBalanced hoister (1 ∷ 2 ∷ []) (0 ∷ 1 ∷ []) two_blocks hoister.env.parent
      no_hoists refl

two_blocks-IsPlaced : IsPlaced two_blocks hoister.env.parent
two_blocks-IsPlaced = record { distinct = λ bb. ground arith; home = λ bb i m. ground arith }

apply_schedule-Keeps_example :
    Keeps
      (0 ∷ 1 ∷ [])
      two_blocks
      hoister.env.parent
      (apply_schedule hoister
        (1 ∷ 2 ∷ [])
        (0 ∷ 1 ∷ [])
        two_blocks
        hoister.env.parent
        no_hoists).contents
      (apply_schedule hoister
        (1 ∷ 2 ∷ [])
        (0 ∷ 1 ∷ [])
        two_blocks
        hoister.env.parent
        no_hoists).parent
apply_schedule-Keeps_example =
    apply_schedule-Keeps hoister (1 ∷ 2 ∷ []) (0 ∷ 1 ∷ []) two_blocks hoister.env.parent no_hoists
      two_blocks-IsPlaced (λ i m. (ground arith, ground arith))

apply_schedule-MovedUp_example : MovedUp hoister (0 ∷ 1 ∷ []) hoister.env.parent 1 (
    (apply_schedule hoister
        (1 ∷ 2 ∷ [])
        (0 ∷ 1 ∷ [])
        two_blocks
        hoister.env.parent
        no_hoists).parent
      1)
apply_schedule-MovedUp_example =
    apply_schedule-MovedUp hoister (1 ∷ 2 ∷ []) (0 ∷ 1 ∷ []) two_blocks hoister.env.parent no_hoists
      two_blocks-IsPlaced (λ i m. (ground arith, ground arith)) 1
