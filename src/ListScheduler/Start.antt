-- ===== src/ListScheduler/Start.antt =====
-- The counts and the queue with which the scheduling loop starts.
use llvm_scheduling_reg_pres.Base.{
  ℕ, suc, ◌≡◌, refl, ap, ◌∙◌, true, false, ◌&&◌, List, [], ◌∷◌, elem, Distinct, missing, missing-le,
  elem-select, Distinct-select, arith, length,
}
use llvm_scheduling_reg_pres.Base.Int.{ℤ, pos, eqb_ℤ}
use llvm_scheduling_reg_pres.Ir.BitVec.{BitVec}
use llvm_scheduling_reg_pres.Ddg.{Ddg, update}
use llvm_scheduling_reg_pres.Ddg.Edges.{IsWf, preds}
use llvm_scheduling_reg_pres.ListScheduler.{Job, schedulable, reset_counts, start}
use llvm_scheduling_reg_pres.ListScheduler.Loop.{waits, is_ready, Inv, Finished, run-Finished}

missing-nil : (xs : List ℕ) → missing xs [] ≡ length xs
missing-nil [] = refl
missing-nil (x ∷ xs) = ap suc (missing-nil xs)

reset_counts-other :
    (g : Ddg) (n : ℕ) (ns : List ℕ) (c : ℕ → ℤ) → elem n ns ≡ false → reset_counts g ns c n ≡ c n
reset_counts-other g n [] c h = refl
reset_counts-other g n (x ∷ ns) c h =
    ground (arith, reset_counts-other g n ns (update c x (pos (length (g.heap x).predecessors))))

reset_counts-elem :
    (g : Ddg) (n : ℕ) (ns : List ℕ) (c : ℕ → ℤ)
    → Distinct ns
    → elem n ns ≡ true
    → reset_counts g ns c n ≡ pos (length (preds g n))
reset_counts-elem g n [] c d h = absurd (ground arith)
reset_counts-elem g n (x ∷ ns) c d h =
    let c' = update c x (pos (length (g.heap x).predecessors)) in
    ground (arith, reset_counts-elem g n ns c', reset_counts-other g n ns c')

module _ (job : Job) (w : IsWf job.ddg) (nodup : Distinct job.ddg.nodes) (live : BitVec)
    (peak : ℕ) where
  first_counts : ℕ → ℤ
  first_counts = reset_counts job.ddg job.ddg.nodes (λ n. (job.ddg.heap n).pred_count)

  first_counts-elem : (n : ℕ) → elem n job.ddg.nodes ≡ true → first_counts n ≡ pos (waits job [] n)
  unfolding first_counts
  first_counts-elem n m = ground (
    arith,
    missing-nil (preds job.ddg n),
    reset_counts-elem job.ddg n job.ddg.nodes (λ k. (job.ddg.heap k).pred_count) nodup m,
  )

  start-queue : (n : ℕ) → elem n (start job live peak).ready ≡ is_ready job [] n
  unfolding first_counts
  start-queue n =
      elem-select (λ k. eqb_ℤ (first_counts k) (pos 0) && schedulable job k) n job.ddg.nodes ∙ tests
    where
      tests :
          (elem n job.ddg.nodes && (eqb_ℤ (first_counts n) (pos 0) && schedulable job n))
          ≡ is_ready job [] n
      tests = ground (arith, first_counts-elem n)

  Inv-start : Inv job [] (start job live peak)
  Inv-start = record {
    counts = λ n m. unfold first_counts in first_counts-elem n m;
    queue = λ n. start-queue n;
    queue_distinct = Distinct-select _ job.ddg.nodes nodup;
    settled = λ n h. absurd (ground arith);
  }

  pub finished : Finished job [] (length job.ddg.nodes) (start job live peak)
  finished =
      run-Finished job w nodup (length job.ddg.nodes) [] (start job live peak) Inv-start
        (missing-le job.ddg.nodes [])
