-- ===== src/ListScheduler/Correct.antt =====
-- listSchedule as a whole: it returns, orders the nodes along the edges, and schedules exactly the
-- nodes that no PHI and no terminator holds up.
use llvm_scheduling_reg_pres.Base.{
  ℕ, suc, ◌<◌, ◌≡◌, refl, sym, subst, ◌∙◌, true, false, List, [], some, elem, Distinct, arith,
  length, Bool-cases, inl, inr, ◌↔◌,
}
use llvm_scheduling_reg_pres.Ir.BitVec.{BitVec}
use llvm_scheduling_reg_pres.Ddg.Edges.{IsWf, edge}
use llvm_scheduling_reg_pres.ListScheduler.{Job, SchedState, start, list_schedule, instrs}
use llvm_scheduling_reg_pres.ListScheduler.Loop.{all_done, Finished}
use llvm_scheduling_reg_pres.ListScheduler.Start.{finished}
use llvm_scheduling_reg_pres.ListScheduler.Order.{
  IsTopological, Blocked, Follows-IsTopological, elem-all_done, not-Blocked, left-Blocked,
}

module _ (job : Job) (w : IsWf job.ddg) (nodup : Distinct job.ddg.nodes) (live : BitVec)
    (peak : ℕ) where
  list_schedule-returns :
      (f : Finished job [] (length job.ddg.nodes) (start job live peak))
      → list_schedule job live peak ≡ some (instrs job.ddg f.picked, f.end)
  unfolding list_schedule
  list_schedule-returns f = rw (f.returns)

  -- On a well-formed graph that lists no node twice listSchedule ends within a round of its loop for
  -- each node, never with a null `best`, and the schedule lists nodes of the graph that are no PHI and
  -- no terminator, each at most once, each behind all nodes with an edge to it.
  pub list_schedule-IsTopological :
      (picked : List ℕ) × (end : SchedState) × (list_schedule job live peak
        ≡ some (instrs job.ddg picked, end))
      × IsTopological job picked
  list_schedule-IsTopological =
      let f = finished job w nodup live peak in
      (f.picked, f.end, list_schedule-returns f, Follows-IsTopological job w f.picked f.follows)

  -- On a well-formed graph that lists no node twice and whose edges all lead from an older node to a
  -- younger one, listSchedule ends, and its schedule lacks exactly the nodes that are, or that depend at
  -- any distance on, a PHI or a terminator.
  pub list_schedule_complete :
      ((a b : ℕ) → edge job.ddg a b ≡ true → a < b)
      → (picked : List ℕ) × (end : SchedState) × (list_schedule job live peak
          ≡ some (instrs job.ddg picked, end))
        × ((n : ℕ) → elem n job.ddg.nodes ≡ true → (elem n picked ≡ false) ↔ Blocked job n)
  list_schedule_complete forward =
      let f = finished job w nodup live peak in
      let t = Follows-IsTopological job w f.picked f.follows in
      let idle =
        λ (n : ℕ). sym (f.inv.queue n) ∙ subst (λ q. elem n q ≡ false) (sym f.drained) refl in
      (
        f.picked,
        f.end,
        list_schedule-returns f,
        λ n m. (
          λ a.
              left-Blocked job w forward (all_done [] f.picked) idle (suc n) n (omega arith) m
                (elem-all_done job n [] f.picked ∙ a),
          λ b. elim (Bool-cases (elem n f.picked)) [
            | inl e ↦ absurd (not-Blocked job f.picked t n b e)
            | inr e ↦ e
          ],
        ),
      )
