-- ===== src/Dominators/Step.antt =====
-- A step of the dominator computation obeys the laws of the loop.
use llvm_scheduling_reg_pres.Base.{
  ℕ, suc, ◌<◌, ◌≡◌, ◌≢◌, refl, sym, ap, subst, ◌∙◌, true, false, List, ◌∷◌, Option, none, some,
  elem, arith, length, Distinct, update, update_same, get_elem?, get_elem?-lt, index_of-elem, ◌==◌,
  ==_iff, Bool-cases, inl, inr,
}
use mathlib.Core.Path.{fun_ext}
use llvm_scheduling_reg_pres.Ir.Function.{Function}
use llvm_scheduling_reg_pres.Ir.BitVec.{BitVec, test, set, zeros, count, same_bits}
use llvm_scheduling_reg_pres.Ir.Count.{SubBits-count-lt}
use llvm_scheduling_reg_pres.Ir.Subset.{SubBits, SubBits-refl, SubBits-trans, same_bits-eq}
use llvm_scheduling_reg_pres.Dataflow.Fixpoint.{Analysis}
use llvm_scheduling_reg_pres.Dominators.{number_from, new_dom, position, dom_step}
use llvm_scheduling_reg_pres.Dominators.Numbers.{number_from_absent, number_from-get_elem?}
use llvm_scheduling_reg_pres.Dominators.Meet.{
  known, all_have-false, some_known-elem, length-new_dom, test-new_dom, new_dom-SubBits,
}

-- There is a path from the entry block to this one without `d`.
pub data Avoids (f : Function) (d : ℕ) : ℕ → Type 0 where
  from_entry : f.entry ≢ d → Avoids f d f.entry
  onward : (a b : ℕ) → elem b (f.successors a) ≡ true → b ≢ d → Avoids f d a → Avoids f d b

pub ==_ne : (a b : ℕ) → a ≢ b → (a == b) ≡ false
==_ne a b h = elim (Bool-cases (a == b)) [ inl e ↦ absurd (h ((==_iff a b).0 e)) | inr e ↦ e ]

module _ (f : Function) (rest : List ℕ) (distinct : Distinct (f.entry ∷ rest)) where
  abbrev pub order : List ℕ
  order = f.entry ∷ rest

  abbrev pub width : ℕ
  width = suc (length rest)

  abbrev pub idx : ℕ → Option ℕ
  idx = number_from 0 order (λ b. none)

  -- What the loop computes for a block.
  abbrev pub next : ℕ → (ℕ → BitVec) → BitVec
  next b V = new_dom f idx width (position idx b) b V

  pub idx_at : (k b : ℕ) → get_elem? order k ≡ some b → idx b ≡ some k
  idx_at k b at = number_from-get_elem? 0 order (λ b. none) k b distinct at ∙ ap some (omega arith)

  pub known-elem : (b : ℕ) → known idx b ≡ elem b order
  known-elem b = elim (Bool-cases (elem b order)) [
    | inl e ↦
        let (k, at) = index_of-elem order b e in
        ap (λ o. elim o [ none ↦ false | some _ ↦ true ]) (idx_at k b at) ∙ sym e
    | inr e ↦
        ap (λ o. elim o [ none ↦ false | some _ ↦ true ])
          (number_from_absent 0 order (λ b. none) b e)
        ∙ sym e
  ]

  -- Different blocks stand at different positions.
  pub same_position :
      (j b d : ℕ)
      → elem b order ≡ true
      → get_elem? order j ≡ some d
      → (position idx b == j) ≡ (b == d)
  same_position j b d m at =
      let (k, here) = index_of-elem order b m in
      let at_b = idx_at k b here in
      let at_d = idx_at j d at in
      let is : position idx b ≡ k = ap (λ o. elim o [ none ↦ 0 | some i ↦ i ]) at_b in
      elim (Bool-cases (b == d)) [
        | inl e ↦
            let same = ap idx ((==_iff b d).0 e) in
            let eq : k ≡ j = ground arith in rw is (ground arith)
        | inr e ↦ elim (Bool-cases (k == j)) [
          | inl s ↦
              absurd (let look = ap (λ i. get_elem? order i) ((==_iff k j).0 s) in ground arith)
          | inr s ↦ rw is (s ∙ sym e)
        ]
      ]

  pub record DomInv (V : ℕ → BitVec) : Type 0 where
    pub entry_set : V f.entry ≡ set (zeros width) 0
    pub wide : (b : ℕ) → elem b order ≡ true → length (V b) ≡ width
    pub above : (b : ℕ) → elem b rest ≡ true → SubBits (next b V) (V b)
    pub sound :
        (b j d : ℕ)
        → elem b order ≡ true
        → get_elem? order j ≡ some d
        → test (V b) j ≡ false
        → Avoids f d b

  -- Every block of the order but the first has a predecessor there, and predecessors precede.
  pub record HasPreds : Type 0 where
    pub pred_of :
        (b : ℕ)
        → elem b rest ≡ true
        → (p : ℕ) × (elem p (f.predecessors b) ≡ true) × (elem p order ≡ true)
    pub back :
        (a b : ℕ)
        → elem b order ≡ true
        → elem a (f.predecessors b) ≡ true
        → elem b (f.successors a) ≡ true

  module _ (g : HasPreds) (b : ℕ) (V : ℕ → BitVec) (at : elem b rest ≡ true) (i : DomInv V) where
    abbrev pub lowered : ℕ → BitVec
    lowered = update V b (next b V)

    not_entry : (f.entry == b) ≡ false
    not_entry = elim (Bool-cases (f.entry == b)) [
      | inl e ↦
          absurd (
            let same = ap (λ k. elem k rest) ((==_iff f.entry b).0 e) in ground (arith, distinct.0))
      | inr e ↦ e
    ]

    lowered-SubBits : (k : ℕ) → SubBits (lowered k) (V k)
    lowered-SubBits k = elim (Bool-cases (b == k)) [
      | inl e ↦ rw e (subst (λ j. SubBits (next b V) (V j)) ((==_iff b k).0 e) (i.above b at))
      | inr e ↦ rw e (SubBits-refl (V k))
    ]

    -- A bit that the step clears.
    next_sound : (j d : ℕ) → get_elem? order j ≡ some d → test (next b V) j ≡ false → Avoids f d b
    next_sound j d pos clear =
        let inside : elem b order ≡ true = ground arith in
        let small : j < width = get_elem?-lt order j d pos in
        let bit = test-new_dom f idx width (position idx b) b V j small in
        let apart = same_position j b d inside pos in
        let (p, p_in, p_seen) = g.pred_of b at in
        let has = some_known-elem idx p (f.predecessors b) p_in (known-elem p ∙ p_seen) in
        let (q, q_in, q_known, q_clear) =
          all_have-false idx V j (f.predecessors b) (ground arith) in
        let q_seen = sym (known-elem q) ∙ q_known in
        let other : (b == d) ≡ false = ground arith in
        onward q b (g.back q b inside q_in) (λ e. let yes = (==_iff b d).1 e in ground arith)
          (i.sound q j d q_seen pos q_clear)

    pub lowered-DomInv : DomInv lowered
    lowered-DomInv = record {
      entry_set =
          let ne : (b == f.entry) ≡ false = (let n = not_entry in ground arith) in
          rw ne (i.entry_set);
      wide = λ k m. elim (Bool-cases (b == k)) [
        | inl e ↦ rw e (length-new_dom f idx width (position idx b) b V)
        | inr e ↦ rw e (i.wide k m)
      ];
      above = λ k m.
          let mono = new_dom-SubBits f idx width (position idx k) k lowered V lowered-SubBits in
          elim (Bool-cases (b == k)) [
            | inl e ↦
                let is = (==_iff b k).0 e in
                rw e (subst (λ j. SubBits (next k lowered) (next j V)) (sym is) mono)
            | inr e ↦ rw e (SubBits-trans (next k lowered) (next k V) (V k) mono (i.above k m))
          ];
      sound = λ k j d m pos clear. elim (Bool-cases (b == k)) [
        | inl e ↦ subst (λ l. Avoids f d l) ((==_iff b k).0 e) (next_sound j d pos (rw e at clear))
        | inr e ↦ i.sound k j d m pos (rw e at clear)
      ];
    }

  pub step_quiet :
      (b : ℕ) (V : ℕ → BitVec)
      → same_bits (next b V) (V b) ≡ true
      → dom_step f idx width b V ≡ (V b, false)
  unfolding dom_step
  step_quiet b V e = rw e refl

  pub step_lowered :
      (b : ℕ) (V : ℕ → BitVec)
      → same_bits (next b V) (V b) ≡ false
      → dom_step f idx width b V ≡ (next b V, true)
  unfolding dom_step
  step_lowered b V e = rw e refl

  unfoldable pub dom_step-Analysis : HasPreds → Analysis BitVec BitVec (dom_step f idx width) rest
  dom_step-Analysis g = record {
    key = λ v. v;
    measure = λ v. count v;
    Inv = DomInv;
    keeps = λ b V at i. elim (Bool-cases (same_bits (next b V) (V b))) [
      | inl e ↦
          let same : V ≡ update V b (dom_step f idx width b V).0 = fun_ext (λ k.
            sym (update_same (λ (v : BitVec). v) V b _ k (ap (λ p. p.0) (step_quiet b V e)))) in
          subst DomInv same i
      | inr e ↦ rw (step_lowered b V e) (lowered-DomInv g b V at i)
    ];
    falls = λ b V at i c. elim (Bool-cases (same_bits (next b V) (V b))) [
      | inl e ↦ absurd (let no = ap (λ p. p.1) (step_quiet b V e) in cc)
      | inr e ↦ rw (step_lowered b V e) (SubBits-count-lt (next b V) (V b) (i.above b at) e)
    ];
    rests = λ b V at i c. elim (Bool-cases (same_bits (next b V) (V b))) [
      | inl e ↦ ap (λ p. p.0) (step_quiet b V e)
      | inr e ↦ absurd (let yes_lowered = ap (λ p. p.1) (step_lowered b V e) in cc)
    ];
    measure_key = λ x y e. ap (λ v. count v) e;
    reads = λ b V W e. ap (dom_step f idx width b) (fun_ext e);
  }

  -- Where a step changes nothing, the set solves the equation.
  pub step_fixed :
      (b : ℕ) (V : ℕ → BitVec) → dom_step f idx width b V ≡ (V b, false) → next b V ≡ V b
  step_fixed b V h = elim (Bool-cases (same_bits (next b V) (V b))) [
    | inl e ↦ same_bits-eq (next b V) (V b) e
    | inr e ↦ absurd (let no = ap (λ p. p.1) (sym (step_lowered b V e) ∙ h) in cc)
  ]
