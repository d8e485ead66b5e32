-- ===== src/ListScheduler/Loop.antt =====
-- The invariant of the scheduling loop, and what holds when it ends.
use llvm_scheduling_reg_pres.Base.{
  ℕ, zero, suc, ◌≤◌, ◌≡◌, Bool, true, false, not, ◌&&◌, List, [], ◌∷◌, some, ◌==◌, if◌then◌else◌,
  elem, remove, Distinct, missing, missing-cons, missing-cons_absent, elem-remove, elem-remove_ne,
  elem-remove_self, Distinct-remove, arith, Bool-cases, List-cases, inl, inr,
}
use llvm_scheduling_reg_pres.Base.Int.{pos}
use llvm_scheduling_reg_pres.Ddg.Edges.{IsWf, succs, preds, edge}
use llvm_scheduling_reg_pres.ListScheduler.{
  Job, SchedState, schedulable, take, body, run, pick_best,
}
use llvm_scheduling_reg_pres.ListScheduler.Release.{release-counts, release-ready, release-Distinct}
use llvm_scheduling_reg_pres.ListScheduler.Choice.{pick_best-elem}

-- The nodes picked by the end, the last one first, when `done` were picked before `picked`.
abbrev pub all_done : List ℕ → List ℕ → List ℕ
all_done done [] = done
all_done done (n ∷ ns) = all_done (n ∷ done) ns

module _ (job : Job) where
  -- How many predecessors of `n` are not done.
  abbrev pub waits : List ℕ → ℕ → ℕ
  waits done n = missing (preds job.ddg n) done

  -- `n` may be picked: it is a schedulable node, not done, and all before it is done.
  abbrev pub is_ready : List ℕ → ℕ → Bool
  is_ready done n =
      elem n job.ddg.nodes && schedulable job n && (waits done n == 0) && not (elem n done)

  -- Each node is picked when it is ready.
  abbrev pub Follows : List ℕ → List ℕ → Type 0
  Follows done [] = Unit
  Follows done (n ∷ ns) = (is_ready done n ≡ true) × Follows (n ∷ done) ns

  pub record Inv (done : List ℕ) (st : SchedState) : Type 0 where
    pub counts : (n : ℕ) → elem n job.ddg.nodes ≡ true → st.counts n ≡ pos (waits done n)
    pub queue : (n : ℕ) → elem n st.ready ≡ is_ready done n
    pub queue_distinct : Distinct st.ready
    pub settled : (n : ℕ) → elem n done ≡ true → waits done n ≡ 0

  module _ (w : IsWf job.ddg) (done : List ℕ) (best : ℕ) (fresh : elem best done ≡ false) where
    waits-cons :
        (n : ℕ)
        → waits done n
          ≡ (if edge job.ddg best n then suc (waits (best ∷ done) n) else waits (best ∷ done) n)
    waits-cons n = ground (
      arith,
      w.mirrored best n,
      missing-cons best (preds job.ddg n) done (w.distinct_preds n),
      missing-cons_absent best (preds job.ddg n) done,
    )

  module _ (w : IsWf job.ddg) (done : List ℕ) (st : SchedState) (inv : Inv done st) (best : ℕ)
      (chosen : elem best st.ready ≡ true) where
    best_ready : is_ready done best ≡ true
    best_ready = ground (arith, inv.queue best)

    best_fresh : elem best done ≡ false
    best_fresh = ground (arith, best_ready)

    -- A node that is queued or done has no edge from a node that is not done.
    no_edge : (n : ℕ) → waits done n ≡ 0 → edge job.ddg best n ≡ false
    no_edge n h = ground (arith, waits-cons w done best best_fresh n)

    taken : SchedState
    taken = take job best st

    body-counts :
        (n : ℕ)
        → elem n job.ddg.nodes ≡ true
        → (body job best st).counts n ≡ pos (waits (best ∷ done) n)
    unfolding body
    body-counts n m = ground (
      arith,
      release-counts job n (succs job.ddg best) (take job best st) (w.distinct_succs best),
      inv.counts n m,
      waits-cons w done best best_fresh n,
    )

    body-queue : (n : ℕ) → elem n (body job best st).ready ≡ is_ready (best ∷ done) n
    unfolding body
    body-queue n = elim (Bool-cases (n == best)) [
      | inl e ↦ ground (
        arith,
        release-ready job n (succs job.ddg best) (take job best st) (w.distinct_succs best),
        elem-remove_self best st.ready inv.queue_distinct,
        no_edge best,
        best_ready,
      )
      | inr e ↦ ground (
        arith,
        release-ready job n (succs job.ddg best) (take job best st) (w.distinct_succs best),
        elem-remove_ne n best st.ready e,
        inv.queue n,
        inv.counts n,
        inv.settled n,
        w.closed_to best n,
        waits-cons w done best best_fresh n,
      )
    ]

    body-Distinct : Distinct (body job best st).ready
    unfolding body
    body-Distinct =
        release-Distinct job (succs job.ddg best) (take job best st) (w.distinct_succs best)
          (Distinct-remove best st.ready inv.queue_distinct)
          (λ s m. ground (
            arith,
            Bool-cases (elem s (remove best st.ready)),
            elem-remove s best st.ready,
            inv.queue s,
            no_edge s,
          ))

    body-settled : (n : ℕ) → elem n (best ∷ done) ≡ true → waits (best ∷ done) n ≡ 0
    body-settled n h =
        ground (arith, inv.settled n, best_ready, waits-cons w done best best_fresh n)

    Inv-body : Inv (best ∷ done) (body job best st)
    Inv-body = record {
      counts = body-counts;
      queue = body-queue;
      queue_distinct = body-Distinct;
      settled = body-settled;
    }

  -- With a round for each node that is not done, the loop ends with an empty queue.
  pub record Finished (done : List ℕ) (fuel : ℕ) (st : SchedState) : Type 0 where
    pub picked : List ℕ
    pub end : SchedState
    pub returns : run job fuel st ≡ some (picked, end)
    pub follows : Follows done picked
    pub inv : Inv (all_done done picked) end
    pub drained : end.ready ≡ []

  Finished-empty :
      (done : List ℕ) (fuel : ℕ) (st : SchedState)
      → Inv done st
      → st.ready ≡ []
      → Finished done fuel st
  Finished-empty done fuel st inv e = record {
    picked = [];
    end = st;
    returns = run_empty fuel;
    follows = tt;
    inv = inv;
    drained = e;
  }
    where
      run_empty : (f : ℕ) → run job f st ≡ some ([], st)
      run_empty zero = unfold run in ground arith
      run_empty (suc f) = unfold run in ground arith

  run-suc :
      (fuel best x : ℕ) (rest picked : List ℕ) (st end : SchedState)
      → st.ready ≡ x ∷ rest
      → pick_best job.ddg job.env job.use_reg_pressure st.live st.ready ≡ some best
      → run job fuel (body job best st) ≡ some (picked, end)
      → run job (suc fuel) st ≡ some (best ∷ picked, end)
  unfolding run
  run-suc fuel best x rest picked st end e p r = ground arith

  Finished-cons :
      (fuel best x : ℕ) (rest done : List ℕ) (st : SchedState)
      → st.ready ≡ x ∷ rest
      → pick_best job.ddg job.env job.use_reg_pressure st.live st.ready ≡ some best
      → is_ready done best ≡ true
      → Finished (best ∷ done) fuel (body job best st)
      → Finished done (suc fuel) st
  Finished-cons fuel best x rest done st e p ready f = record {
    picked = best ∷ f.picked;
    end = f.end;
    returns = run-suc fuel best x rest f.picked st f.end e p f.returns;
    follows = (ready, f.follows);
    inv = f.inv;
    drained = f.drained;
  }

  -- What the next round picks from a queue that is not empty.
  record Round (done : List ℕ) (st : SchedState) : Type 0 where
    best : ℕ
    picks : pick_best job.ddg job.env job.use_reg_pressure st.live st.ready ≡ some best
    ready : is_ready done best ≡ true
    inv : Inv (best ∷ done) (body job best st)
    fewer : suc (missing job.ddg.nodes (best ∷ done)) ≡ missing job.ddg.nodes done

  Round-of :
      IsWf job.ddg
      → Distinct job.ddg.nodes
      → (done : List ℕ) (st : SchedState) (x : ℕ) (rest : List ℕ) → Inv done st
      → st.ready ≡ x ∷ rest
      → Round done st
  Round-of w nodup done st x rest inv e =
      let (best, p, chosen) =
        pick_best-elem job.ddg job.env job.use_reg_pressure st.live st.ready (λ n. cc) in
      let ready = best_ready w done st inv best chosen in
      record {
        best = best;
        picks = p;
        ready = ready;
        inv = Inv-body w done st inv best chosen;
        fewer = missing-cons best job.ddg.nodes done nodup (ground arith) (ground arith);
      }

  pub run-Finished :
      IsWf job.ddg
      → Distinct job.ddg.nodes
      → (fuel : ℕ) (done : List ℕ) (st : SchedState) → Inv done st
      → missing job.ddg.nodes done ≤ fuel
      → Finished done fuel st
  run-Finished w nodup zero done st inv h = elim (List-cases st.ready) [
    | inl e ↦ Finished-empty done zero st inv e
    | inr (x, rest, e) ↦
        let r = Round-of w nodup done st x rest inv e in absurd (omega (arith, r.fewer))
  ]
  run-Finished w nodup (suc fuel) done st inv h = elim (List-cases st.ready) [
    | inl e ↦ Finished-empty done (suc fuel) st inv e
    | inr (x, rest, e) ↦
        let r = Round-of w nodup done st x rest inv e in
        Finished-cons fuel r.best x rest done st e r.picks r.ready (
          run-Finished w nodup fuel (r.best ∷ done) (body job r.best st) r.inv
            (omega (arith, r.fewer)))
  ]
