-- ===== src/Local/Block.antt =====
-- The local scheduler on one block.
use llvm_scheduling_reg_pres.Base.{
  ℕ, ◌≡◌, sym, ap, ◌∙◌, Bool, true, List, [], ◌∷◌, some, elem, Distinct, Before, Before-elem, Perm,
  arith, Bool-cases, inl, inr, ==_iff, ◌==◌,
}
use mathlib.Core.Bool.{false≢true}
use llvm_scheduling_reg_pres.Ir.{Ir}
use llvm_scheduling_reg_pres.Ir.BitVec.{BitVec}
use llvm_scheduling_reg_pres.Ddg.{Ddg}
use llvm_scheduling_reg_pres.Ddg.Edges.{edge}
use llvm_scheduling_reg_pres.Ddg.Build.{build_local_ddg}
use llvm_scheduling_reg_pres.Ddg.Build.Correct.{Represents, WaitsFor, build_local_ddg-Represents}
use llvm_scheduling_reg_pres.Critical.Lengths.{SameShape, SameShape-IsWf}
use llvm_scheduling_reg_pres.Critical.Longest.{compute_critical_path-SameShape}
use llvm_scheduling_reg_pres.ListScheduler.{PressureEnv, Job, instrs}
use llvm_scheduling_reg_pres.ListScheduler.Order.{IsTopological}
use llvm_scheduling_reg_pres.ListScheduler.Correct.{list_schedule-IsTopological}
use llvm_scheduling_reg_pres.Legality.{anchor_of, reorder_block_within_regions}
use llvm_scheduling_reg_pres.Legality.Order.{
  anchors_only, reorder_block-perm, reorder_block-anchors_only, reorder_block-Before,
}
use llvm_scheduling_reg_pres.Local.{schedule_block}

-- What a scheduler may do to a block.
pub record IsLegal (ir : Ir) (block result : List ℕ) : Type 0 where
  pub same : Perm block result
  pub anchored : anchors_only (anchor_of ir) result ≡ anchors_only (anchor_of ir) block
  pub in_order : (i j : ℕ) → Before block i j → WaitsFor ir block j i → Before result i j

pub SameShape-Represents :
    (ir : Ir) (is : List ℕ) (Needs : ℕ → ℕ → Type 0) (g g' : Ddg)
    → SameShape g g'
    → Represents ir is Needs g
    → Represents ir is Needs g'
SameShape-Represents ir is Needs g g' s r = record {
  wf = SameShape-IsWf g g' s r.wf;
  distinct = rw (s.nodes) r.distinct;
  node_of = λ i e. let (k, m, is_i) = r.node_of i e in (k, rw (s.nodes) m, s.instr k ∙ is_i);
  of_instr = λ k e. rw (s.instr k) (r.of_instr k (rw (s.nodes) at e));
  injective = λ k l mk ml e.
      r.injective k l (rw (s.nodes) at mk) (rw (s.nodes) at ml) (sym (s.instr k) ∙ e ∙ s.instr l);
  increasing = λ k l mk ml h.
      r.increasing k l (rw (s.nodes) at mk) (rw (s.nodes) at ml) (rw (s.instr k, s.instr l) at h);
  edges = λ k l mk ml.
      rw (s.instr k, s.instr l, s.successors k)
        (r.edges k l (rw (s.nodes) at mk) (rw (s.nodes) at ml));
}

module _ (g : Ddg) where
  pub elem-instrs :
      (i : ℕ) (ns : List ℕ)
      → elem i (instrs g ns) ≡ true
      → (n : ℕ) × (elem n ns ≡ true) × ((g.heap n).instr ≡ i)
  elem-instrs i [] h = absurd (ground arith)
  elem-instrs i (n ∷ ns) h = elim (Bool-cases (i == (g.heap n).instr)) [
    | inl same ↦ (n, ground arith, sym ((==_iff i (g.heap n).instr).0 same))
    | inr other ↦ let (k, m, e) = elem-instrs i ns (ground arith) in (k, ground arith, e)
  ]

  elem-instrs_of :
      (n : ℕ) (ns : List ℕ) → elem n ns ≡ true → elem (g.heap n).instr (instrs g ns) ≡ true
  elem-instrs_of n [] h = absurd (ground arith)
  elem-instrs_of n (k ∷ ns) h = elim (Bool-cases (n == k)) [
    | inl same ↦ rw ((==_iff n k).0 same) (ground arith)
    | inr other ↦ let later = elem-instrs_of n ns (ground arith) in ground arith
  ]

  Before-instrs :
      (a b : ℕ) (ns : List ℕ)
      → Before ns a b
      → Before (instrs g ns) (g.heap a).instr (g.heap b).instr
  Before-instrs a b [] h = absurd h
  Before-instrs a b (n ∷ ns) (inl h) = inl (ap (λ k. (g.heap k).instr) h.0, elem-instrs_of b ns h.1)
  Before-instrs a b (n ∷ ns) (inr h) = inr (Before-instrs a b ns h)

  Distinct-instrs :
      (ns : List ℕ)
      → ((k l : ℕ)
          → elem k ns ≡ true
          → elem l ns ≡ true
          → (g.heap k).instr ≡ (g.heap l).instr
          → k ≡ l)
      → Distinct ns
      → Distinct (instrs g ns)
  Distinct-instrs [] inj d = tt
  Distinct-instrs (n ∷ ns) inj d = (
    elim (Bool-cases (elem (g.heap n).instr (instrs g ns))) [
      | inr e ↦ e
      | inl e ↦
          let (k, m, is_n) = elem-instrs (g.heap n).instr ns e in
          let same = inj k n (ground arith) (ground arith) is_n in
          absurd (false≢true (sym d.0 ∙ rw same at m))
    ],
    Distinct-instrs ns (λ k l mk ml e. inj k l (ground arith) (ground arith) e) d.1,
  )

-- A topological order of the nodes of a block makes a legal order of its instructions.
module _ (ir : Ir) (block : List ℕ) (d : Distinct block) (job : Job)
    (r : Represents ir block (WaitsFor ir block) job.ddg) (picked : List ℕ)
    (t : IsTopological job picked) where
  abbrev schedule : List ℕ
  schedule = instrs job.ddg picked

  Distinct-schedule : Distinct schedule
  Distinct-schedule =
      Distinct-instrs job.ddg picked
        (λ k l mk ml e. r.injective k l (t.from_nodes k mk) (t.from_nodes l ml) e) t.distinct

  schedule-Before :
      (i j : ℕ)
      → elem i block ≡ true
      → WaitsFor ir block j i
      → elem j schedule ≡ true
      → Before schedule i j
  schedule-Before i j mi w m =
      let (n, picked_n, is_j) = elem-instrs job.ddg j picked m in
      let (k, mk, is_i) = r.node_of i mi in
      let e : edge job.ddg k n ≡ true =
        (r.edges k n mk (t.from_nodes n picked_n)).1 (rw (is_i, is_j) w) in
      rw (is_i, is_j) at (Before-instrs job.ddg k n picked (t.ordered k n e picked_n))

  schedule-IsLegal : IsLegal ir block (reorder_block_within_regions ir schedule block)
  schedule-IsLegal = record {
    same = reorder_block-perm ir schedule block d;
    anchored = reorder_block-anchors_only ir schedule block d;
    in_order = λ i j h w.
        reorder_block-Before ir schedule block i j d Distinct-schedule
          (schedule-Before i j (Before-elem i j block h) w) h;
  }

pub schedule_block-IsLegal :
    (env : PressureEnv) (stats_on : Bool) (live : BitVec) (block : List ℕ) (peak : ℕ)
    → Distinct block
    → (result : List ℕ) × (peak' : ℕ) × (schedule_block env stats_on live block peak
        ≡ some (result, peak'))
      × IsLegal env.ir block result
unfolding schedule_block
schedule_block-IsLegal env stats_on live block peak d =
    let built = build_local_ddg-Represents env.ir block d in
    let (g, sorted, shape) =
      compute_critical_path-SameShape (build_local_ddg env.ir block) built.wf built.distinct in
    let r = SameShape-Represents env.ir block (WaitsFor env.ir block) _ g shape built in
    let job : Job = record { ddg = g; env = env; use_reg_pressure = true; stats_on = stats_on } in
    let (picked, end, scheduled, t) = list_schedule-IsTopological job r.wf r.distinct live peak in
    (
      reorder_block_within_regions env.ir (instrs g picked) block,
      end.peak,
      rw (sorted, scheduled),
      schedule-IsLegal env.ir block d job r picked t,
    )
