-- ===== src/Reaching/Step.antt =====
-- A step of reaching definitions obeys the laws of the loop.
use llvm_scheduling_reg_pres.Base.{
  ℕ, ◌≤◌, ◌<◌, ◌≡◌, refl, sym, ap, subst, ◌∙◌, Bool, true, false, not, ◌&&◌, List, [], ◌∷◌, arith,
  elem, length, select, elem-select, update, update-map, update_same, ◌==◌, ==_iff, Bool-cases, inl,
  inr,
}
use mathlib.Core.Path.{fun_ext}
use llvm_scheduling_reg_pres.Ir.Function.{Function}
use llvm_scheduling_reg_pres.Ir.BitVec.{
  BitVec, test, zeros, or_bits, and_bits, flip_bits, same_bits,
}
use llvm_scheduling_reg_pres.Ir.Subset.{
  SubBits, SubBits-refl, SubBits-clear-lt, or_bits-SubBits, and_bits-SubBits, clear, same_bits-eq,
  test_inside, length-zeros, length-or_bits, length-and_bits, test-or_bits, test-and_bits,
  test-flip_bits, test-zeros,
}
use llvm_scheduling_reg_pres.Dataflow.Fixpoint.{Analysis}
use llvm_scheduling_reg_pres.Dataflow.Flow.{IsFlow, FlowInv, grown-FlowInv}
use llvm_scheduling_reg_pres.Dataflow.Union.{
  union_from-SubBits, length-union_from-le, union_from-hit, union_from-acc, union_from-pass,
}
use llvm_scheduling_reg_pres.Reaching.Sets.{BlockStateReaching}
use llvm_scheduling_reg_pres.Reaching.{pred_outs, new_in, new_out, reaching_step}

pred_outs-SubBits :
    (width : ℕ) (V W : ℕ → BitVec) (ps : List ℕ)
    → ((k : ℕ) → SubBits (V k) (W k))
    → SubBits (pred_outs width V ps) (pred_outs width W ps)
pred_outs-SubBits width V W [] h = SubBits-refl (zeros width)
pred_outs-SubBits width V W (p ∷ ps) h = union_from-SubBits ps (V p) (W p) V W (h p) h

length-pred_outs :
    (width : ℕ) (V : ℕ → BitVec) (ps : List ℕ)
    → ((k : ℕ) → length (V k) ≤ width)
    → length (pred_outs width V ps) ≤ width
length-pred_outs width V [] h = let z = length-zeros width in omega (arith, z)
length-pred_outs width V (p ∷ ps) h = length-union_from-le width ps (V p) V (h p) h

pub pred_outs_hit :
    (width : ℕ) (V : ℕ → BitVec) (ps : List ℕ) (i : ℕ)
    → test (pred_outs width V ps) i ≡ true
    → (n : ℕ) × (elem n ps ≡ true) × (test (V n) i ≡ true)
pred_outs_hit width V [] i t = absurd (let none_set = test-zeros width i in cc)
pred_outs_hit width V (p ∷ ps) i t = elim (union_from-hit ps (V p) V i t) [
  | inl h ↦ (p, ground arith, h)
  | inr (n, m, h) ↦ (n, ground arith, h)
]

pub pred_outs_pass :
    (width : ℕ) (V : ℕ → BitVec) (ps : List ℕ) (i n : ℕ)
    → elem n ps ≡ true
    → test (V n) i ≡ true
    → test (pred_outs width V ps) i ≡ true
pred_outs_pass width V [] i n m h = absurd (ground arith)
pred_outs_pass width V (p ∷ ps) i n m h = elim (Bool-cases (n == p)) [
  | inl e ↦ union_from-acc ps (V p) V i (ap (λ j. test (V j) i) (sym ((==_iff n p).0 e)) ∙ h)
  | inr e ↦ union_from-pass ps (V p) V i n (ground arith) h
]

module _ (f : Function) (order : List ℕ) (width : ℕ) (first : ℕ → BlockStateReaching) where
  -- The gen and kill sets are as wide as the universe.
  pub record IsWide : Type 0 where
    pub wide_gen : (b : ℕ) → elem b order ≡ true → length (first b).gen_set ≡ width
    pub wide_kill : (b : ℕ) → elem b order ≡ true → length (first b).kill_set ≡ width

  abbrev pub gen : ℕ → ℕ → Bool
  gen b i = test (first b).gen_set i

  abbrev pub kill : ℕ → ℕ → Bool
  kill b i = test (first b).kill_set i

  -- The predecessors that the analysis visits.
  abbrev pub visited : ℕ → List ℕ
  visited b = select (λ n. elem n order) (f.predecessors b)

  abbrev pub flow : ℕ → (ℕ → BitVec) → BitVec
  flow b V =
      or_bits (first b).gen_set
        (and_bits (pred_outs width V (f.predecessors b)) (flip_bits (first b).kill_set))

  -- What comes in and is not killed.
  abbrev kept : ℕ → (ℕ → BitVec) → BitVec
  kept b V = and_bits (pred_outs width V (f.predecessors b)) (flip_bits (first b).kill_set)

  kept_free :
      IsWide
      → (b i : ℕ) (V : ℕ → BitVec) → elem b order ≡ true
      → i < width
      → test (kept b V) i ≡ (test (pred_outs width V (f.predecessors b)) i && not (kill b i))
  kept_free w b i V at small =
      let wide = w.wide_kill b at in
      let both =
        test-and_bits (pred_outs width V (f.predecessors b)) (flip_bits (first b).kill_set) i in
      let flip = test-flip_bits (first b).kill_set i (omega (arith, wide, small)) in ground arith

  length-kept :
      (b : ℕ) (V : ℕ → BitVec) → ((k : ℕ) → length (V k) ≤ width) → length (kept b V) ≤ width
  length-kept b V h =
      let long = length-pred_outs width V (f.predecessors b) h in
      let same =
        length-and_bits (pred_outs width V (f.predecessors b)) (flip_bits (first b).kill_set) in
      omega (arith, long, same)

  pub flow-IsFlow : IsWide → IsFlow order width visited gen kill flow
  flow-IsFlow w = record {
    mono = λ b V W h.
        or_bits-SubBits (first b).gen_set (first b).gen_set (kept b V) (kept b W)
          (SubBits-refl (first b).gen_set)
          (and_bits-SubBits (pred_outs width V (f.predecessors b))
            (pred_outs width W (f.predecessors b)) (flip_bits (first b).kill_set)
            (pred_outs-SubBits width V W (f.predecessors b) h));
    wide = λ b V at fits.
        let g = w.wide_gen b at in
        let k = length-kept b V fits.narrow in
        length-or_bits (first b).gen_set (kept b V) (omega (arith, g, k)) ∙ g;
    hit = λ b i V at fits t.
        let all = test-or_bits (first b).gen_set (kept b V) i in
        elim (Bool-cases (gen b i)) [
          | inl g ↦ inl g
          | inr g ↦
              let in_kept : test (kept b V) i ≡ true = ground arith in
              let long = test_inside (kept b V) i in_kept in
              let short = length-kept b V fits.narrow in
              let free = kept_free w b i V at (omega (arith, long, short)) in
              let (n, m, v) = pred_outs_hit width V (f.predecessors b) i (ground arith) in
              let seen : elem n order ≡ true = elim (Bool-cases (elem n order)) [
                | inl e ↦ e
                | inr e ↦ absurd (let gone = ap (λ l. test l i) (fits.outside n e) in ground arith)
              ] in
              inr (
                n,
                elem-select (λ k. elem k order) n (f.predecessors b) ∙ ground arith,
                v,
                ground arith,
              )
        ];
    gens = λ b i V at g. let all = test-or_bits (first b).gen_set (kept b V) i in ground arith;
    passes = λ b n i V at fits m v free.
        let all = test-or_bits (first b).gen_set (kept b V) i in
        let long = test_inside (V n) i v in
        let short = fits.narrow n in
        let part = kept_free w b i V at (omega (arith, long, short)) in
        let listed : elem n (f.predecessors b) ≡ true =
          let s = elem-select (λ k. elem k order) n (f.predecessors b) in ground arith in
        let comes = pred_outs_pass width V (f.predecessors b) i n listed v in ground arith;
  }

  -- The `out` sets of a state.
  abbrev pub outs : (ℕ → BlockStateReaching) → ℕ → BitVec
  outs st k = (st k).out_set

  pub record ReachingInv (st : ℕ → BlockStateReaching) : Type 0 where
    pub flows : FlowInv order width visited gen kill flow (outs st)
    pub same_gen : (k : ℕ) → (st k).gen_set ≡ (first k).gen_set
    pub same_kill : (k : ℕ) → (st k).kill_set ≡ (first k).kill_set

  -- Whether a step leaves the `out` set of its block.
  abbrev pub quiet : ℕ → (ℕ → BlockStateReaching) → Bool
  quiet b st = same_bits (new_out f width b st) (st b).out_set

  -- The state of its block after a step.
  abbrev pub renewed : ℕ → (ℕ → BlockStateReaching) → BlockStateReaching
  renewed b st = record (st b) { in_set = new_in f width b st; out_set = new_out f width b st }

  pub step_quiet :
      (b : ℕ) (st : ℕ → BlockStateReaching)
      → quiet b st ≡ true
      → reaching_step f width b st ≡ (record (st b) { in_set = new_in f width b st }, false)
  unfolding reaching_step
  step_quiet b st e = rw e refl

  step_changed :
      (b : ℕ) (st : ℕ → BlockStateReaching)
      → quiet b st ≡ false
      → reaching_step f width b st ≡ (renewed b st, true)
  unfolding reaching_step
  step_changed b st e = rw e refl

  -- In both cases the sets are the new ones.
  pub step_renewed :
      (b : ℕ) (st : ℕ → BlockStateReaching) → (reaching_step f width b st).0 ≡ renewed b st
  step_renewed b st = elim (Bool-cases (quiet b st)) [
    | inl e ↦
        ap (λ p. p.0) (step_quiet b st e)
        ∙ ap (λ o. record (st b) { in_set = new_in f width b st; out_set = o })
            (sym (same_bits-eq (new_out f width b st) (st b).out_set e))
    | inr e ↦ ap (λ p. p.0) (step_changed b st e)
  ]

  step_flag :
      (b : ℕ) (st : ℕ → BlockStateReaching) → (reaching_step f width b st).1 ≡ not (quiet b st)
  step_flag b st = elim (Bool-cases (quiet b st)) [
    | inl e ↦ rw e (ap (λ p. p.1) (step_quiet b st e))
    | inr e ↦ rw e (ap (λ p. p.1) (step_changed b st e))
  ]

  pub step_counts :
      (b : ℕ) (st : ℕ → BlockStateReaching)
      → (reaching_step f width b st).1 ≡ true
      → quiet b st ≡ false
  step_counts b st c = let flag = step_flag b st in ground arith

  pub step_rests :
      (b : ℕ) (st : ℕ → BlockStateReaching)
      → (reaching_step f width b st).1 ≡ false
      → quiet b st ≡ true
  step_rests b st c = let flag = step_flag b st in ground arith

  module _ (w : IsWide) (b : ℕ) (st : ℕ → BlockStateReaching) (at : elem b order ≡ true)
      (i : ReachingInv st) where
    pub new_out-flow : new_out f width b st ≡ flow b (outs st)
    new_out-flow = rw (i.same_gen b, i.same_kill b) refl

    outs-renewed : outs (update st b (renewed b st)) ≡ update (outs st) b (flow b (outs st))
    outs-renewed = fun_ext (λ k.
        update-map (λ (a : BlockStateReaching). a.out_set) st b (renewed b st) k
        ∙ ap (λ v. update (outs st) b v k) new_out-flow)

    pub renewed-ReachingInv : ReachingInv (update st b (renewed b st))
    renewed-ReachingInv = record {
      flows =
          rw outs-renewed (
            grown-FlowInv order width visited gen kill flow (flow-IsFlow w) b (outs st) at i.flows);
      same_gen =
          λ k. update_same (λ (a : BlockStateReaching). a.gen_set) st b _ k refl ∙ i.same_gen k;
      same_kill =
          λ k. update_same (λ (a : BlockStateReaching). a.kill_set) st b _ k refl ∙ i.same_kill k;
    }

    pub fewer : quiet b st ≡ false → clear (new_out f width b st) < clear (st b).out_set
    fewer e =
        SubBits-clear-lt (st b).out_set (new_out f width b st)
          (subst (λ v. SubBits (st b).out_set v) (sym new_out-flow) (i.flows.below b at)) e

  -- What a step reads of a block.
  abbrev pub read : BlockStateReaching → BlockStateReaching
  read a = record a { in_set = [] }

  pub reads_renewed :
      (b : ℕ) (st st' : ℕ → BlockStateReaching)
      → ((k : ℕ) → read (st k) ≡ read (st' k))
      → reaching_step f width b st ≡ reaching_step f width b st'
  unfolding reaching_step
  reads_renewed b st st' h =
      let V = fun_ext (λ k. ap (λ (a : BlockStateReaching). a.out_set) (h k)) in
      let o = ap (λ (a : BlockStateReaching). a.out_set) (h b) in
      let g = ap (λ (a : BlockStateReaching). a.gen_set) (h b) in
      let k = ap (λ (a : BlockStateReaching). a.kill_set) (h b) in cc

  unfoldable pub reaching_step-Analysis :
      IsWide → Analysis BlockStateReaching BlockStateReaching (reaching_step f width) order
  reaching_step-Analysis w = record {
    key = read;
    measure = λ a. clear a.out_set;
    Inv = ReachingInv;
    keeps = λ b st at i. rw (step_renewed b st) (renewed-ReachingInv w b st at i);
    falls = λ b st at i c. rw (step_renewed b st) (fewer w b st at i (step_counts b st c));
    rests = λ b st at i c. ap (λ p. read p.0) (step_quiet b st (step_rests b st c));
    measure_key = λ x y e. ap (λ a. clear a.out_set) e;
    reads = reads_renewed;
  }

  -- Where a step changes nothing, the two sets solve the equations.
  pub step_fixed :
      (b : ℕ) (st : ℕ → BlockStateReaching)
      → reaching_step f width b st ≡ (st b, false)
      → (new_in f width b st ≡ (st b).in_set) × (new_out f width b st ≡ (st b).out_set)
  step_fixed b st h =
      let same = sym (step_renewed b st) ∙ ap (λ p. p.0) h in
      (ap (λ a. a.in_set) same, ap (λ a. a.out_set) same)
