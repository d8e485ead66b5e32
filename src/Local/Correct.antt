-- ===== src/Local/Correct.antt =====
-- The local scheduler on a function.
use llvm_scheduling_reg_pres.Base.{
  ℕ, ◌≡◌, refl, subst, ◌∙◌, Bool, true, false, List, [], ◌∷◌, some, elem, Distinct, arith,
  Bool-cases, inl, inr, ==_iff, ◌==◌, elem-ne,
}
use llvm_scheduling_reg_pres.Ddg.{update}
use llvm_scheduling_reg_pres.ListScheduler.{PressureEnv}
use llvm_scheduling_reg_pres.Local.{LocalState, schedule_block, run_local_scheduler}
use llvm_scheduling_reg_pres.Local.Block.{IsLegal, schedule_block-IsLegal}

-- What the loop makes of some blocks.
record Ends (env : PressureEnv) (stats_on : Bool) (blocks : List ℕ) (st : LocalState) : Type 0 where
  end : LocalState
  returns : run_local_scheduler env stats_on blocks st ≡ some end
  legal : (bb : ℕ) → elem bb blocks ≡ true → IsLegal env.ir (st.contents bb) (end.contents bb)
  others : (bb : ℕ) → elem bb blocks ≡ false → end.contents bb ≡ st.contents bb

module _ (env : PressureEnv) (stats_on : Bool) (bb : ℕ) (bbs : List ℕ) (st : LocalState)
    (fresh : elem bb bbs ≡ false) (block : List ℕ) (peak : ℕ) where
  abbrev changed : LocalState
  changed = record { contents = update st.contents bb block; peak = peak }

  changed-other : (k : ℕ) → elem k bbs ≡ true → changed.contents k ≡ st.contents k
  changed-other k m = let ne = elem-ne k bb bbs m fresh in ground arith

  changed_self : changed.contents bb ≡ block
  changed_self = ground arith

  Ends-cons :
      schedule_block env stats_on (env.liveness bb).in_set (st.contents bb) st.peak
        ≡ some (block, peak)
      → IsLegal env.ir (st.contents bb) block
      → Ends env stats_on bbs changed
      → Ends env stats_on (bb ∷ bbs) st
  unfolding run_local_scheduler
  Ends-cons returns now rest = record {
    end = rest.end;
    returns = rw returns rest.returns;
    legal = λ k m. elim (Bool-cases (k == bb)) [
      | inl same ↦ rw ((==_iff k bb).0 same) (rw (rest.others bb fresh ∙ changed_self) now)
      | inr other ↦
          let later : elem k bbs ≡ true = ground arith in
          subst (λ old. IsLegal env.ir old (rest.end.contents k)) (changed-other k later)
            (rest.legal k later)
    ];
    others = λ k m.
        let old : changed.contents k ≡ st.contents k = ground arith in
        rest.others k (ground arith) ∙ old;
  }

run-Ends :
    (env : PressureEnv) (stats_on : Bool) (blocks : List ℕ) (st : LocalState)
    → Distinct blocks
    → ((bb : ℕ) → elem bb blocks ≡ true → Distinct (st.contents bb))
    → Ends env stats_on blocks st
run-Ends env stats_on [] st d h = record {
  end = st;
  returns = unfold run_local_scheduler in refl;
  legal = λ bb m. absurd (ground arith);
  others = λ bb m. refl;
}
run-Ends env stats_on (bb ∷ bbs) st d h =
    let (block, peak, returns, legal) =
      schedule_block-IsLegal env stats_on (env.liveness bb).in_set (st.contents bb) st.peak
        (h bb (ground arith)) in
    Ends-cons env stats_on bb bbs st d.0 block peak returns legal (
      run-Ends env stats_on bbs (changed env stats_on bb bbs st d.0 block peak) d.1
        (λ k m. rw (changed-other env stats_on bb bbs st d.0 block peak k m) (h k (ground arith))))

-- For blocks that are all different and hold no instruction twice, runLocalScheduler ends; every
-- block on its list then holds its instructions in a legal order: the same instructions, the anchors
-- at their old indices, and each instruction still behind the earlier ones that it has to wait for;
-- every other block is as it was.
pub run_local_scheduler-IsLegal :
    (env : PressureEnv) (stats_on : Bool) (blocks : List ℕ) (st : LocalState)
    → Distinct blocks
    → ((bb : ℕ) → elem bb blocks ≡ true → Distinct (st.contents bb))
    → (end : LocalState) × (run_local_scheduler env stats_on blocks st ≡ some end)
      × ((bb : ℕ) → elem bb blocks ≡ true → IsLegal env.ir (st.contents bb) (end.contents bb))
      × ((bb : ℕ) → elem bb blocks ≡ false → end.contents bb ≡ st.contents bb)
run_local_scheduler-IsLegal env stats_on blocks st d h =
    let e = run-Ends env stats_on blocks st d h in (e.end, e.returns, e.legal, e.others)
