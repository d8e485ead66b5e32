-- ===== src/Passes/Locally.antt =====
-- The local pass on a function.
use llvm_scheduling_reg_pres.Base.{ℕ, ◌≡◌, true, false, Bool, some, elem, Distinct}
use llvm_scheduling_reg_pres.Ir.Values.{build_value_index}
use llvm_scheduling_reg_pres.Ir.Function.{Function, blocks_of, universe_of}
use llvm_scheduling_reg_pres.Liveness.Correct.{compute_liveness-some}
use llvm_scheduling_reg_pres.Local.{LocalState}
use llvm_scheduling_reg_pres.Local.Block.{IsLegal}
use llvm_scheduling_reg_pres.Local.Correct.{run_local_scheduler-IsLegal}
use llvm_scheduling_reg_pres.Passes.{run_local_pass}

-- On a function whose blocks are all different and hold no instruction twice, localSchedulerPass ends:
-- liveness reaches its fixed point and every block is scheduled. Every block then holds its instructions
-- in a legal order, and nothing else is changed.
pub run_local_pass-IsLegal :
    (f : Function) (parent : ℕ → ℕ) (stats_on : Bool)
    → Distinct (blocks_of f)
    → ((bb : ℕ) → elem bb (blocks_of f) ≡ true → Distinct (f.contents bb))
    → (end : LocalState) × (run_local_pass f parent stats_on ≡ some end)
      × ((bb : ℕ) → elem bb (blocks_of f) ≡ true → IsLegal f.ir (f.contents bb) (end.contents bb))
      × ((bb : ℕ) → elem bb (blocks_of f) ≡ false → end.contents bb ≡ f.contents bb)
unfolding run_local_pass
run_local_pass-IsLegal f parent stats_on d once =
    let (liveness, found) = compute_liveness-some f in
    let (end, returns, legal, others) =
      run_local_scheduler-IsLegal
        (record {
          ir = f.ir;
          parent = parent;
          universe_index = build_value_index (universe_of f);
          liveness = liveness;
        })
        stats_on (blocks_of f) (record { contents = f.contents; peak = 0 }) d once in
    (end, rw found returns, legal, others)
