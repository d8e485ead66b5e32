-- ===== src/Local.antt =====
-- include/localScheduler.hpp: runLocalScheduler. `contents` maps a block to its instructions; what
-- the loop changes is that map and the peak statistic.
pub mod Block
pub mod Correct
use llvm_scheduling_reg_pres.Base.{ℕ, Bool, true, List, [], ◌∷◌, Option, none, some, bind}
use llvm_scheduling_reg_pres.Ir.{Ir}
use llvm_scheduling_reg_pres.Ir.BitVec.{BitVec}
use llvm_scheduling_reg_pres.Ddg.{update}
use llvm_scheduling_reg_pres.Ddg.Build.{build_local_ddg}
use llvm_scheduling_reg_pres.Critical.{compute_critical_path}
use llvm_scheduling_reg_pres.ListScheduler.{PressureEnv, Job, list_schedule}
use llvm_scheduling_reg_pres.Legality.{reorder_block_within_regions}

pub record LocalState : Type 0 where
  pub contents : ℕ → List ℕ
  pub peak : ℕ

-- applyLocalSchedule
abbrev pub apply_local_schedule : Ir → List ℕ → List ℕ → List ℕ
apply_local_schedule ir schedule block = reorder_block_within_regions ir schedule block

-- The loop's body on the instructions of a block: their new order, and the peak.
unfoldable pub schedule_block :
    PressureEnv → (stats_on : Bool) → BitVec → List ℕ → ℕ → Option (List ℕ × ℕ)
schedule_block env stats_on live block peak =
    bind (compute_critical_path (build_local_ddg env.ir block)) λ g.
      bind
        (list_schedule (record { ddg = g; env = env; use_reg_pressure = true; stats_on = stats_on })
          live peak)
        λ (schedule, end). some (apply_local_schedule env.ir schedule block, end.peak)

-- for (auto& BB : F)
unfoldable pub run_local_scheduler :
    PressureEnv → (stats_on : Bool) → List ℕ → LocalState → Option LocalState
unfolding schedule_block
run_local_scheduler env stats_on [] st = some st
run_local_scheduler env stats_on (bb ∷ bbs) st =
    bind (schedule_block env stats_on (env.liveness bb).in_set (st.contents bb) st.peak)
      λ (block, peak).
        run_local_scheduler env stats_on bbs
          (record { contents = update st.contents bb block; peak = peak })
