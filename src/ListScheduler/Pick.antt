-- ===== src/ListScheduler/Pick.antt =====
-- include/listScheduler.hpp: pickBest.
use llvm_scheduling_reg_pres.Base.{ℕ, Bool, ◌&&◌, List, [], ◌∷◌, Option, none, some, if◌then◌else◌}
use llvm_scheduling_reg_pres.Base.Int.{ℤ, pos, negsuc, ltb_ℤ, eqb_ℤ}
use llvm_scheduling_reg_pres.Ir.BitVec.{BitVec}
use llvm_scheduling_reg_pres.Ddg.{Ddg}
use llvm_scheduling_reg_pres.ListScheduler.Pressure.{PressureEnv, pressure_delta}

-- The variables `best`, `bestCP` and `bestDelta`.
pub record Best : Type 0 where
  pub best : Option ℕ
  pub best_cp : ℤ
  pub best_delta : ℤ

-- nullptr, -1, INT_MAX
abbrev pub no_best : Best
no_best = record { best = none; best_cp = negsuc 0; best_delta = pos 2_147_483_647 }

module _ (cp delta : ℕ → ℤ) where
  abbrev pub consider : ℕ → Best → Best
  consider n b =
      let chosen : Best = record { best = some n; best_cp = cp n; best_delta = delta n } in
      if ltb_ℤ b.best_cp (cp n)
      then chosen
      else if eqb_ℤ (cp n) b.best_cp && ltb_ℤ (delta n) b.best_delta
      then chosen
      else b

  unfoldable pub pick_from : List ℕ → Best → Best
  pick_from [] b = b
  pick_from (n ∷ ns) b = pick_from ns (consider n b)

abbrev pub node_cp : Ddg → ℕ → ℤ
node_cp g n = pos (g.heap n).critical_path

abbrev pub node_delta : Ddg → PressureEnv → Bool → BitVec → ℕ → ℤ
node_delta g env use_reg_pressure live n =
    if use_reg_pressure then pressure_delta env (g.heap n).instr live else pos 0

unfoldable pub pick_best : Ddg → PressureEnv → Bool → BitVec → List ℕ → Option ℕ
unfolding pick_from
pick_best g env use_reg_pressure live ready =
    (pick_from (node_cp g) (node_delta g env use_reg_pressure live) ready no_best).best
