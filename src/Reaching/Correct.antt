-- ===== src/Reaching/Correct.antt =====
-- computeReaching as a whole.
use mathlib.Core.List.{flatten}
use llvm_scheduling_reg_pres.Base.{
  ℕ, suc, ◌*◌, ◌≤◌, ◌≡◌, ◌↔◌, refl, sym, ap, ◌∙◌, true, false, not, List, [], ◌∷◌, map, some, arith,
  elem, elem-append, elem-select, Distinct, length, get_elem?, get_elem?-elem, ◌==◌, if◌then◌else◌,
  ==_iff, Bool-cases, inl, inr,
}
use llvm_scheduling_reg_pres.Ir.Function.{Function, blocks_of, definitions_of, instructions_of}
use llvm_scheduling_reg_pres.Ir.BitVec.{test, zeros}
use llvm_scheduling_reg_pres.Ir.Subset.{clear, length-zeros, test-zeros, clear-le-length}
use llvm_scheduling_reg_pres.Dataflow.{iterate}
use llvm_scheduling_reg_pres.Dataflow.Fill.{fill_at}
use llvm_scheduling_reg_pres.Dataflow.Fixpoint.{Settled, iterate-Settled, total-le}
use llvm_scheduling_reg_pres.Dataflow.Flow.{Flows, generated, passed, FlowInv-Start, Flows-fixed}
use llvm_scheduling_reg_pres.Trace.Paths.{IsCfg}
use llvm_scheduling_reg_pres.Trace.Reach.{Reachable, Reachable-inside}
use llvm_scheduling_reg_pres.Reaching.Sets.{BlockStateReaching, Names, collect, empty_sets, absent}
use llvm_scheduling_reg_pres.Reaching.{reaching_step, first_sets, compute_reaching}
use llvm_scheduling_reg_pres.Reaching.Visits.{cfg_of, visit_order-Reachable}
use llvm_scheduling_reg_pres.Reaching.Collect.{
  renames, Collected, collect-Collected, Framed, collect-Framed,
}
use llvm_scheduling_reg_pres.Reaching.Step.{
  IsWide, gen, kill, visited, flow, flow-IsFlow, outs, ReachingInv, reaching_step-Analysis,
  step_fixed, new_out-flow, pred_outs_hit, pred_outs_pass,
}

-- Definition `d` reaches the end of a block: the block makes it, or it comes from a reachable
-- predecessor and no other definition of the block has its name.
pub data ReachesEnd (f : Function) (names : Names) (d : ℕ) : ℕ → Type 0 where
  made : (b : ℕ) → elem d (f.contents b) ≡ true → ReachesEnd f names d b
  carried :
      (a b : ℕ)
      → elem a (f.predecessors b) ≡ true
      → Reachable (cfg_of f) a
      → renames f.ir names d (f.contents b) ≡ false
      → ReachesEnd f names d a
      → ReachesEnd f names d b

pub elem-flatten :
    (i b : ℕ) (contents : ℕ → List ℕ) (bs : List ℕ)
    → elem b bs ≡ true
    → elem i (contents b) ≡ true
    → elem i (flatten (map contents bs)) ≡ true
unfolding flatten
elem-flatten i b contents [] m h = absurd (ground arith)
elem-flatten i b contents (c ∷ bs) m h =
    let all = elem-append i (contents c) (flatten (map contents bs)) in
    elim (Bool-cases (b == c)) [
      | inl e ↦ let same = ap (λ k. elem i (contents k)) ((==_iff b c).0 e) in all ∙ ground arith
      | inr e ↦ let rest = elem-flatten i b contents bs (ground arith) h in all ∙ ground arith
    ]

module _ (f : Function) (names : Names) (cfg : IsCfg (cfg_of f) (blocks_of f))
    (distinct : Distinct (definitions_of f)) (order : List ℕ)
    (visits : (m : ℕ) → (elem m order ≡ true) ↔ Reachable (cfg_of f) m) where
  abbrev width : ℕ
  width = length (definitions_of f)

  abbrev initial : ℕ → BlockStateReaching
  initial = first_sets f names order

  inside_universe :
      (b : ℕ)
      → elem b order ≡ true
      → (i : ℕ) → elem i (f.contents b) ≡ true
      → (f.ir i).is_void ≡ false
      → elem i (definitions_of f) ≡ true
  inside_universe b m i h v =
      let block = Reachable-inside (cfg_of f) (blocks_of f) cfg b ((visits b).0 m) in
      elem-select (λ k. not (f.ir k).is_void) i (instructions_of f)
      ∙ rw (v, elem-flatten i b f.contents (blocks_of f) block h) refl

  initial_at :
      (b : ℕ)
      → elem b order ≡ true
      → initial b ≡ collect f.ir names (definitions_of f) (f.contents b) (empty_sets width)
  initial_at b m =
      fill_at (λ k. collect f.ir names (definitions_of f) (f.contents k) (empty_sets width)) order
        (λ _. absent) b
      ∙ rw m refl

  initial_outside : (b : ℕ) → elem b order ≡ false → initial b ≡ absent
  initial_outside b m =
      fill_at (λ k. collect f.ir names (definitions_of f) (f.contents k) (empty_sets width)) order
        (λ _. absent) b
      ∙ rw m refl

  initial-Framed : (b : ℕ) → elem b order ≡ true → Framed (empty_sets width) (initial b)
  initial-Framed b m =
      rw (initial_at b m)
        (collect-Framed names (definitions_of f) f.ir (f.contents b) (empty_sets width))

  initial-IsWide : IsWide f order width initial
  initial-IsWide = record {
    wide_gen = λ b m. (initial-Framed b m).wide_gen ∙ length-zeros width;
    wide_kill = λ b m. (initial-Framed b m).wide_kill ∙ length-zeros width;
  }

  initial_out : (b : ℕ) → (initial b).out_set ≡ (if elem b order then zeros width else [])
  initial_out b = elim (Bool-cases (elem b order)) [
    | inl e ↦ rw e ((initial-Framed b e).same_out)
    | inr e ↦ rw e (ap (λ a. a.out_set) (initial_outside b e))
  ]

  initial-ReachingInv : ReachingInv f order width initial initial
  initial-ReachingInv = record {
    flows =
        FlowInv-Start order width (visited f order width initial) (gen f order width initial)
          (kill f order width initial) (flow f order width initial)
          (flow-IsFlow f order width initial initial-IsWide) (outs f order width initial initial)
          initial_out;
    same_gen = λ k. refl;
    same_kill = λ k. refl;
  }

  initial_small : (b : ℕ) → clear (initial b).out_set ≤ width
  initial_small b =
      let c = clear-le-length (initial b).out_set in
      let z = length-zeros width in
      let o = ap length (initial_out b) in
      elim (Bool-cases (elem b order)) [
        | inl e ↦ ground (arith, c, z, o)
        | inr e ↦ ground (arith, c, o)
      ]

  abbrev Ends : Type 0
  Ends =
      Settled BlockStateReaching BlockStateReaching (reaching_step f width) order
        (reaching_step-Analysis f order width initial initial-IsWide)
        (iterate (reaching_step f width) (suc (length order * width)) order initial)

  iterate-reaching : Ends
  unfolding reaching_step-Analysis
  iterate-reaching =
      let an = reaching_step-Analysis f order width initial initial-IsWide in
      let small =
        total-le BlockStateReaching BlockStateReaching (reaching_step f width) order an width order
          initial initial_small in
      iterate-Settled BlockStateReaching BlockStateReaching (reaching_step f width) order an
        (suc (length order * width)) initial initial-ReachingInv (omega (arith, small))

  module _ (idx d : ℕ) (at : get_elem? (definitions_of f) idx ≡ some d) where
    initial-Collected :
        (b : ℕ)
        → elem b order ≡ true
        → Collected f.ir names
            (definitions_of f)
            distinct
            idx
            d
            at
            (f.contents b)
            (empty_sets width)
            (initial b)
    initial-Collected b m =
        let in_list = get_elem?-elem (definitions_of f) idx d at in
        let chosen = elem-select (λ k. not (f.ir k).is_void) d (instructions_of f) in
        rw (initial_at b m) (
          collect-Collected f.ir names (definitions_of f) distinct idx d at (ground arith)
            (f.contents b) (empty_sets width) (inside_universe b m) (length-zeros width)
            (length-zeros width))

    gen-made :
        (b : ℕ) → elem b order ≡ true → gen f order width initial b idx ≡ elem d (f.contents b)
    gen-made b m =
        let z = test-zeros width idx in let made_bit = (initial-Collected b m).made in ground arith

    kill-renames :
        (b : ℕ)
        → elem b order ≡ true
        → kill f order width initial b idx ≡ renames f.ir names d (f.contents b)
    kill-renames b m =
        let z = test-zeros width idx in let bit = (initial-Collected b m).killed in ground arith

    -- What flows along the visited predecessors is what reaches.
    ReachesEnd-Flows :
        (b : ℕ)
        → elem b order ≡ true
        → Flows
            (visited f order width initial)
            (gen f order width initial)
            (kill f order width initial)
            idx
            b
        → ReachesEnd f names d b
    ReachesEnd-Flows b m (generated _ g) = made b (sym (gen-made b m) ∙ g)
    ReachesEnd-Flows b m (passed _ n e free h) =
        let both = elem-select (λ k. elem k order) n (f.predecessors b) in
        let seen : elem n order ≡ true = ground arith in
        carried n b (ground arith) ((visits n).0 seen) (sym (kill-renames b m) ∙ free)
          (ReachesEnd-Flows n seen h)

    Flows-ReachesEnd :
        (b : ℕ)
        → elem b order ≡ true
        → ReachesEnd f names d b
        → Flows
            (visited f order width initial)
            (gen f order width initial)
            (kill f order width initial)
            idx
            b
    Flows-ReachesEnd b m (made _ h) = generated b (gen-made b m ∙ h)
    Flows-ReachesEnd b m (carried a _ e r free h) =
        let seen = (visits a).1 r in
        let both = elem-select (λ k. elem k order) a (f.predecessors b) in
        passed b a (ground arith) (kill-renames b m ∙ free) (Flows-ReachesEnd a seen h)

    module _ (end : ℕ → BlockStateReaching) (i : ReachingInv f order width initial end)
        (fixed : (b : ℕ) → elem b order ≡ true → reaching_step f width b end ≡ (end b, false)) where
      out_ReachesEnd :
          (b : ℕ) → elem b order ≡ true → (test (end b).out_set idx ≡ true) ↔ ReachesEnd f names d b
      out_ReachesEnd b m = (
        λ t. ReachesEnd-Flows b m (i.flows.sound b idx t),
        λ r.
            Flows-fixed order width (visited f order width initial) (gen f order width initial)
              (kill f order width initial) (flow f order width initial)
              (flow-IsFlow f order width initial initial-IsWide) (outs f order width initial end)
              i.flows
              (λ k e.
                sym ((step_fixed f order width initial k end (fixed k e)).1)
                ∙ new_out-flow f order width initial initial-IsWide k end e i)
              (λ k n e v.
                let both = elem-select (λ j. elem j order) n (f.predecessors k) in ground arith)
              idx b (Flows-ReachesEnd b m r) m,
      )

      in_ReachesEnd :
          (b : ℕ)
          → elem b order ≡ true
          → (test (end b).in_set idx ≡ true) ↔ (
              (a : ℕ) × (elem a (f.predecessors b) ≡ true)
              × Reachable (cfg_of f) a
              × ReachesEnd f names d a)
      in_ReachesEnd b m =
          let same = (step_fixed f order width initial b end (fixed b m)).0 in
          let V = outs f order width initial end in
          (
            λ t.
                let (a, e, v) =
                  pred_outs_hit width V (f.predecessors b) idx (ap (λ l. test l idx) same ∙ t) in
                let seen : elem a order ≡ true = elim (Bool-cases (elem a order)) [
                  | inl y ↦ y
                  | inr n ↦
                      absurd
                        (let gone = ap (λ l. test l idx) (i.flows.fits.outside a n) in ground arith)
                ] in
                (a, e, (visits a).0 seen, (out_ReachesEnd a seen).0 v),
            λ (a, e, r, h).
                sym (ap (λ l. test l idx) same)
                ∙ pred_outs_pass width V (f.predecessors b) idx a e
                    ((out_ReachesEnd a ((visits a).1 r)).1 h),
          )

-- For a function whose edges stay inside it and whose instructions stand in one place each,
-- computeReaching ends. For each reachable block and each definition, the `out` set then has the
-- definition's bit exactly when the definition reaches the end of the block, and the `in` set exactly
-- when it reaches the end of some reachable predecessor.
pub compute_reaching-ReachesEnd :
    (f : Function) (names : Names)
    → IsCfg (cfg_of f) (blocks_of f)
    → Distinct (definitions_of f)
    → (st : ℕ → BlockStateReaching) × (compute_reaching f names ≡ some st)
      × ((b idx d : ℕ)
          → Reachable (cfg_of f) b
          → get_elem? (definitions_of f) idx ≡ some d
          → ((test (st b).out_set idx ≡ true) ↔ ReachesEnd f names d b)
            × ((test (st b).in_set idx ≡ true) ↔ (
                (a : ℕ) × (elem a (f.predecessors b) ≡ true)
                × Reachable (cfg_of f) a
                × ReachesEnd f names d a)))
unfolding compute_reaching reaching_step-Analysis
compute_reaching-ReachesEnd f names cfg distinct =
    let (order, found, visits) = visit_order-Reachable f cfg in
    let s = iterate-reaching f names cfg distinct order visits in
    (
      s.end,
      rw found (s.returns),
      λ b idx d r at.
          let m = (visits b).1 r in
          (
            out_ReachesEnd f names cfg distinct order visits idx d at s.end s.inv s.fixed b m,
            in_ReachesEnd f names cfg distinct order visits idx d at s.end s.inv s.fixed b m,
          ),
    )
