-- ===== src/PassSamples.antt =====
-- The passes on a small function with a loop, and their theorems there.
use llvm_scheduling_reg_pres.Base.{
  ℕ, ◌≡◌, ◌≢◌, ◌↔◌, refl, true, false, [], ◌∷◌, ◌++◌, none, some, elem, if◌then◌else◌, ◌==◌, arith,
  select,
}
use llvm_scheduling_reg_pres.Ir.Function.{blocks_of}
use llvm_scheduling_reg_pres.Legality.{anchor_of}
use llvm_scheduling_reg_pres.Local.{LocalState}
use llvm_scheduling_reg_pres.Local.Block.{IsLegal}
use llvm_scheduling_reg_pres.Hoist.Balance.{IsBalanced}
use llvm_scheduling_reg_pres.Hoist.Placed.{IsPlaced, standing}
use llvm_scheduling_reg_pres.AnalysisSamples.{looping, looping-IsCfg}
use llvm_scheduling_reg_pres.Passes.{GlobalState, Answers, run_local_pass, run_global_pass}
use llvm_scheduling_reg_pres.Passes.Pipeline.{
  Pass, global_pass, local_pass, parse_pass, name_of, parse_pass-name_of,
}
use llvm_scheduling_reg_pres.Passes.Locally.{run_local_pass-IsLegal}
use llvm_scheduling_reg_pres.Passes.Globally.{run_global_pass-IsPlaced}

abbrev parents : ℕ → ℕ
parents i = if i == 11 then 1 else if i == 14 then 1 else if i == 12 then 2 else 0

-- An LLVM that allows every move.
abbrev permissive : Answers
permissive = record {
  names = λ i. some i;
  probability = λ a b. if a == 1 then if b == 2 then 90 else 10 else 100;
  frequency = λ b. if b == 1 then 100 else 10;
  percent = λ n. n;
  is_loop_header = λ b. false;
  loop_of = λ b. none;
  block_dominates = λ a b. true;
  dominates = λ contents def point. true;
  is_safe = λ contents i point. true;
  stats_on = true;
  threshold = none;
  budget = none;
}

looping-IsPlaced : IsPlaced looping.contents parents
looping-IsPlaced = record { distinct = λ b. ground arith; home = λ b i m. ground arith }

run_local_pass-IsLegal_example :
    (end : LocalState) × (run_local_pass looping parents true ≡ some end)
    × ((bb : ℕ)
        → elem bb (blocks_of looping) ≡ true
        → IsLegal looping.ir (looping.contents bb) (end.contents bb))
    × ((bb : ℕ) → elem bb (blocks_of looping) ≡ false → end.contents bb ≡ looping.contents bb)
run_local_pass-IsLegal_example =
    run_local_pass-IsLegal looping parents true looping-IsCfg.distinct
      (λ b m. looping-IsPlaced.distinct b)

run_global_pass-IsPlaced_example :
    (end : GlobalState) × (run_global_pass looping parents permissive true ≡ some end)
    × IsPlaced end.contents end.parent
    × ((i : ℕ) → standing end.contents end.parent i ≡ standing looping.contents parents i)
    × ((b : ℕ)
        → select (anchor_of looping.ir) (end.contents b)
          ≡ select (anchor_of looping.ir) (looping.contents b))
    × IsBalanced end.stats
run_global_pass-IsPlaced_example =
    run_global_pass-IsPlaced looping parents permissive true looping-IsCfg looping-IsPlaced

parse_pass-name_of_example :
    ((p : Pass)
      → (parse_pass "dce" (local_pass ∷ []) ≡ (true, (local_pass ∷ []) ++ p ∷ []))
        ↔ ("dce" ≡ name_of p))
    × (((p : Pass) → "dce" ≢ name_of p)
        → parse_pass "dce" (local_pass ∷ []) ≡ (false, local_pass ∷ []))
parse_pass-name_of_example = parse_pass-name_of "dce" (local_pass ∷ [])

run_parse :
    (parse_pass "globalSchedulerPassNoPressure" [] ≡ (true, global_pass false ∷ []))
    × (parse_pass "localScheduler" [] ≡ (false, []))
unfolding parse_pass
run_parse = (refl, refl)
