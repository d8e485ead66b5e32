-- ===== src/Liveness/Step.antt =====
-- A step of liveness analysis obeys the laws of the loop.
use llvm_scheduling_reg_pres.Base.{
  ℕ, ◌+◌, ◌≤◌, ◌<◌, ◌≡◌, refl, sym, ap, subst, ◌∙◌, Bool, true, false, ◌&&◌, List, arith, elem,
  length, update, update-map, update_same, ◌==◌, ==_iff, Bool-cases, inl, inr,
}
use mathlib.Core.Path.{fun_ext}
use llvm_scheduling_reg_pres.Ir.Function.{Function}
use llvm_scheduling_reg_pres.Ir.BitVec.{BitVec, test, zeros, or_bits, minus_bits, same_bits}
use llvm_scheduling_reg_pres.Ir.Subset.{
  SubBits, SubBits-refl, SubBits-trans, SubBits-clear, SubBits-clear-lt, or_bits-SubBits,
  minus_bits-SubBits, clear, same_bits-eq, length-zeros, length-or_bits, length-minus_bits,
  test-or_bits, test-minus_bits, test-zeros,
}
use llvm_scheduling_reg_pres.Dataflow.Fixpoint.{Analysis}
use llvm_scheduling_reg_pres.Dataflow.Flow.{IsFlow, FlowInv, grown-FlowInv, grown-SubBits}
use llvm_scheduling_reg_pres.Dataflow.Union.{
  union_from, union_from-SubBits, length-union_from, union_from-hit, union_from-pass,
}
use llvm_scheduling_reg_pres.Liveness.{BlockStateLiveness, new_in, new_out, liveness_step}

module _ (f : Function) (order : List ℕ) (width : ℕ) (first : ℕ → BlockStateLiveness) where
  -- The use and def sets are as wide as the universe.
  pub record IsWide : Type 0 where
    pub wide_use : (b : ℕ) → elem b order ≡ true → length (first b).use_set ≡ width
    pub wide_def : (b : ℕ) → elem b order ≡ true → length (first b).def_set ≡ width

  abbrev pub gen : ℕ → ℕ → Bool
  gen b i = test (first b).use_set i

  abbrev pub kill : ℕ → ℕ → Bool
  kill b i = test (first b).def_set i

  -- The successors' `in` sets together, and the new `in` set of a block.
  abbrev pub meet : ℕ → (ℕ → BitVec) → BitVec
  meet b V = union_from (zeros width) V (f.successors b)

  abbrev pub flow : ℕ → (ℕ → BitVec) → BitVec
  flow b V = or_bits (first b).use_set (minus_bits (meet b V) (first b).def_set)

  pub meet-SubBits :
      (b : ℕ) (V W : ℕ → BitVec) → ((k : ℕ) → SubBits (V k) (W k)) → SubBits (meet b V) (meet b W)
  meet-SubBits b V W h =
      union_from-SubBits (f.successors b) (zeros width) (zeros width) V W
        (SubBits-refl (zeros width)) h

  pub length-meet :
      (b : ℕ) (V : ℕ → BitVec) → ((k : ℕ) → length (V k) ≤ width) → length (meet b V) ≡ width
  length-meet b V h =
      let z = length-zeros width in
      length-union_from (f.successors b) (zeros width) V (λ k. omega (arith, z, h k)) ∙ z

  pub flow-IsFlow : IsWide → IsFlow order width f.successors gen kill flow
  flow-IsFlow w = record {
    mono = λ b V W h.
        or_bits-SubBits (first b).use_set (first b).use_set
          (minus_bits (meet b V) (first b).def_set) (minus_bits (meet b W) (first b).def_set)
          (SubBits-refl (first b).use_set)
          (minus_bits-SubBits (meet b V) (meet b W) (first b).def_set (meet-SubBits b V W h));
    wide = λ b V at fits.
        let u = w.wide_use b at in
        let m = length-minus_bits (meet b V) (first b).def_set ∙ length-meet b V fits.narrow in
        length-or_bits (first b).use_set (minus_bits (meet b V) (first b).def_set)
          (omega (arith, u, m))
        ∙ u;
    hit = λ b i V at fits t.
        let all = test-or_bits (first b).use_set (minus_bits (meet b V) (first b).def_set) i in
        let part = test-minus_bits (meet b V) (first b).def_set i in
        elim (Bool-cases (gen b i)) [
          | inl g ↦ inl g
          | inr g ↦
              let in_meet : test (meet b V) i ≡ true = ground arith in
              let free : kill b i ≡ false = ground arith in
              elim (union_from-hit (f.successors b) (zeros width) V i in_meet) [
                | inl z ↦ absurd (let none_set = test-zeros width i in cc)
                | inr (n, m, v) ↦ inr (n, m, v, free)
              ]
        ];
    gens = λ b i V at g.
        let all = test-or_bits (first b).use_set (minus_bits (meet b V) (first b).def_set) i in
        ground arith;
    passes = λ b n i V at fits m v free.
        let all = test-or_bits (first b).use_set (minus_bits (meet b V) (first b).def_set) i in
        let part = test-minus_bits (meet b V) (first b).def_set i in
        let in_meet = union_from-pass (f.successors b) (zeros width) V i n m v in ground arith;
  }

  -- The `in` sets of a state.
  abbrev pub ins : (ℕ → BlockStateLiveness) → ℕ → BitVec
  ins st k = (st k).in_set

  pub record LivenessInv (st : ℕ → BlockStateLiveness) : Type 0 where
    pub flows : FlowInv order width f.successors gen kill flow (ins st)
    pub same_use : (k : ℕ) → (st k).use_set ≡ (first k).use_set
    pub same_def : (k : ℕ) → (st k).def_set ≡ (first k).def_set
    pub out_below : (k : ℕ) → elem k order ≡ true → SubBits (st k).out_set (meet k (ins st))

  module _ (w : IsWide) (b : ℕ) (st : ℕ → BlockStateLiveness) (at : elem b order ≡ true)
      (i : LivenessInv st) where
    pub new_in-flow : new_in f width b st ≡ flow b (ins st)
    new_in-flow = rw (i.same_use b, i.same_def b) refl

    -- The state after a change.
    abbrev pub changed : ℕ → BlockStateLiveness
    changed =
        update st b (record (st b) { in_set = new_in f width b st; out_set = new_out f width b st })

    ins-changed : ins changed ≡ update (ins st) b (flow b (ins st))
    ins-changed = fun_ext (λ k.
        update-map (λ (a : BlockStateLiveness). a.in_set) st b _ k
        ∙ ap (λ v. update (ins st) b v k) new_in-flow)

    ins_grow : (k : ℕ) → SubBits (ins st k) (ins changed k)
    ins_grow k = rw ins-changed (
        grown-SubBits order width f.successors gen kill flow (flow-IsFlow w) b (ins st) at i.flows
          k)

    pub changed-LivenessInv : LivenessInv changed
    changed-LivenessInv = record {
      flows = rw ins-changed (
          grown-FlowInv order width f.successors gen kill flow (flow-IsFlow w) b (ins st) at
            i.flows);
      same_use =
          λ k. update_same (λ (a : BlockStateLiveness). a.use_set) st b _ k refl ∙ i.same_use k;
      same_def =
          λ k. update_same (λ (a : BlockStateLiveness). a.def_set) st b _ k refl ∙ i.same_def k;
      out_below = λ k m.
          rw
            (update-map (λ (a : BlockStateLiveness). a.out_set) st b
              (record (st b) { in_set = new_in f width b st; out_set = new_out f width b st }) k)
            (elim (Bool-cases (b == k)) [
              | inl e ↦ rw e (
                  subst (λ j. SubBits (meet b (ins st)) (meet j (ins changed))) ((==_iff b k).0 e)
                    (meet-SubBits b (ins st) (ins changed) ins_grow))
              | inr e ↦ rw e (
                  SubBits-trans (st k).out_set (meet k (ins st)) (meet k (ins changed))
                    (i.out_below k m) (meet-SubBits k (ins st) (ins changed) ins_grow))
            ]);
    }

    -- A change leaves fewer bits clear.
    pub fewer :
        (same_bits (new_in f width b st) (st b).in_set
            && same_bits (new_out f width b st) (st b).out_set)
          ≡ false
        → clear (new_in f width b st) + clear (new_out f width b st)
          < clear (st b).in_set + clear (st b).out_set
    fewer e =
        let in_below : SubBits (st b).in_set (new_in f width b st) =
          subst (λ v. SubBits (st b).in_set v) (sym new_in-flow) (i.flows.below b at) in
        let out_below = i.out_below b at in
        let in_le = SubBits-clear (st b).in_set (new_in f width b st) in_below in
        let out_le = SubBits-clear (st b).out_set (new_out f width b st) out_below in
        elim (Bool-cases (same_bits (new_in f width b st) (st b).in_set)) [
          | inr d ↦
              let less = SubBits-clear-lt (st b).in_set (new_in f width b st) in_below d in
              omega (arith, less, out_le)
          | inl s ↦
              let d : same_bits (new_out f width b st) (st b).out_set ≡ false = ground arith in
              let less = SubBits-clear-lt (st b).out_set (new_out f width b st) out_below d in
              omega (arith, less, in_le)
        ]

  -- Whether a step changes anything.
  abbrev pub quiet : ℕ → (ℕ → BlockStateLiveness) → Bool
  quiet b st =
      same_bits (new_in f width b st) (st b).in_set
      && same_bits (new_out f width b st) (st b).out_set

  pub step_quiet :
      (b : ℕ) (st : ℕ → BlockStateLiveness)
      → quiet b st ≡ true
      → liveness_step f width b st ≡ (st b, false)
  unfolding liveness_step
  step_quiet b st e = rw e refl

  pub step_changed :
      (b : ℕ) (st : ℕ → BlockStateLiveness)
      → quiet b st ≡ false
      → liveness_step f width b st
        ≡ (record (st b) { in_set = new_in f width b st; out_set = new_out f width b st }, true)
  unfolding liveness_step
  step_changed b st e = rw e refl

  unfoldable pub liveness_step-Analysis :
      IsWide → Analysis BlockStateLiveness BlockStateLiveness (liveness_step f width) order
  liveness_step-Analysis w = record {
    key = λ a. a;
    measure = λ a. clear a.in_set + clear a.out_set;
    Inv = LivenessInv;
    keeps = λ b st at i. elim (Bool-cases (quiet b st)) [
      | inl e ↦
          let same : st ≡ update st b (liveness_step f width b st).0 = fun_ext (λ k. sym (
            update_same (λ (a : BlockStateLiveness). a) st b _ k
              (ap (λ p. p.0) (step_quiet b st e)))) in
          subst LivenessInv same i
      | inr e ↦ rw (step_changed b st e) (changed-LivenessInv w b st at i)
    ];
    falls = λ b st at i c. elim (Bool-cases (quiet b st)) [
      | inl e ↦ absurd (let no = ap (λ p. p.1) (step_quiet b st e) in cc)
      | inr e ↦ rw (step_changed b st e) (fewer w b st at i e)
    ];
    rests = λ b st at i c. elim (Bool-cases (quiet b st)) [
      | inl e ↦ ap (λ p. p.0) (step_quiet b st e)
      | inr e ↦ absurd (let yes_changed = ap (λ p. p.1) (step_changed b st e) in cc)
    ];
    measure_key = λ x y e. ap (λ a. clear a.in_set + clear a.out_set) e;
    reads = λ b st st' e. ap (liveness_step f width b) (fun_ext e);
  }

  -- Where a step changes nothing, the two sets solve the equations.
  pub step_fixed :
      (b : ℕ) (st : ℕ → BlockStateLiveness)
      → liveness_step f width b st ≡ (st b, false)
      → (new_in f width b st ≡ (st b).in_set) × (new_out f width b st ≡ (st b).out_set)
  step_fixed b st h = elim (Bool-cases (quiet b st)) [
    | inl e ↦ (
      same_bits-eq (new_in f width b st) (st b).in_set (ground arith),
      same_bits-eq (new_out f width b st) (st b).out_set (ground arith),
    )
    | inr e ↦ absurd (let no = ap (λ p. p.1) (sym (step_changed b st e) ∙ h) in cc)
  ]
