-- ===== src/Dominators/Correct.antt =====
-- computeDominators as a whole.
use llvm_scheduling_reg_pres.Base.{
  ℕ, suc, ◌*◌, ◌≤◌, ◌<◌, ◌≡◌, ◌≢◌, ◌↔◌, refl, sym, ap, subst, ◌∙◌, true, false, List, [], ◌∷◌, some,
  elem, arith, length, ◌⊎◌, Distinct, get_elem?, get_elem?-lt, ◌==◌, ==_iff, ==_refl, Bool-cases,
  inl, inr,
}
use llvm_scheduling_reg_pres.Ir.Function.{Function, blocks_of}
use llvm_scheduling_reg_pres.Ir.BitVec.{BitVec, test, set, zeros, ones, count}
use llvm_scheduling_reg_pres.Ir.Count.{SubBits-bits, length-ones, test-ones, count-le-length}
use llvm_scheduling_reg_pres.Ir.Subset.{
  SubBits, test-set, length-set, test-zeros, length-zeros, test_inside,
}
use llvm_scheduling_reg_pres.Dataflow.{iterate}
use llvm_scheduling_reg_pres.Dataflow.Fill.{fill_at}
use llvm_scheduling_reg_pres.Dataflow.Fixpoint.{Settled, iterate-Settled, total-le}
use llvm_scheduling_reg_pres.Trace.Paths.{IsCfg}
use llvm_scheduling_reg_pres.Trace.Reach.{Reachable, Reachable-inside, at_entry, along}
use llvm_scheduling_reg_pres.Reaching.Visits.{cfg_of, visit_order-Reachable, visit_order-Distinct}
use llvm_scheduling_reg_pres.Dominators.{
  DomInfo, first_doms, dom_step, dominators_on, compute_dominators, position, idoms,
}
use llvm_scheduling_reg_pres.Dominators.Numbers.{visit_order-StartsWith}
use llvm_scheduling_reg_pres.Dominators.Meet.{length-new_dom, test-new_dom, all_have_lacks}
use llvm_scheduling_reg_pres.Dominators.Step.{
  Avoids, from_entry, onward, ==_ne, width, idx, next, known-elem, same_position, DomInv, HasPreds,
  dom_step-Analysis, step_fixed,
}

-- LLVM keeps predecessors and successors in step.
abbrev pub ListsPreds : Function → Type 0
ListsPreds f = (a b : ℕ) → elem b (f.successors a) ≡ true → elem a (f.predecessors b) ≡ true

module _ (f : Function) (rest : List ℕ) (distinct : Distinct (f.entry ∷ rest))
    (g : HasPreds f rest distinct) where
  abbrev initial : ℕ → BitVec
  initial = first_doms (width f rest distinct) f.entry rest

  initial_entry : initial f.entry ≡ set (zeros (width f rest distinct)) 0
  initial_entry = rw (==_refl f.entry) refl

  initial_rest : (b : ℕ) → elem b rest ≡ true → initial b ≡ ones (width f rest distinct)
  initial_rest b m =
      let other : (f.entry == b) ≡ false = elim (Bool-cases (f.entry == b)) [
        | inl e ↦ absurd (
            let same = ap (λ k. elem k rest) ((==_iff f.entry b).0 e) in ground (arith, distinct.0))
        | inr e ↦ e
      ] in
      let listed : elem b (f.entry ∷ rest) ≡ true = ground arith in
      rw other
        (fill_at (λ _. ones (width f rest distinct)) (f.entry ∷ rest) (λ _. []) b ∙ rw listed refl)

  initial_either : (b : ℕ) → elem b (f.entry ∷ rest) ≡ true → (b ≡ f.entry) ⊎ (elem b rest ≡ true)
  initial_either b m = elim (Bool-cases (b == f.entry)) [
    | inl e ↦ inl ((==_iff b f.entry).0 e)
    | inr e ↦ inr (ground arith)
  ]

  -- The entry block is avoided by all but itself.
  entry-Avoids :
      (j d : ℕ)
      → get_elem? (f.entry ∷ rest) j ≡ some d
      → test (set (zeros (width f rest distinct)) 0) j ≡ false
      → Avoids f d f.entry
  entry-Avoids j d at clear =
      let small : j < width f rest distinct = get_elem?-lt (f.entry ∷ rest) j d at in
      let z = length-zeros (width f rest distinct) in
      let bit = test-set (zeros (width f rest distinct)) 0 j (omega (arith, z, small)) in
      from_entry (λ e.
        let apart = same_position f rest distinct j f.entry d (ground arith) at in
        let here = same_position f rest distinct 0 f.entry f.entry (ground arith) refl in
        let yes = (==_iff f.entry d).1 e in let self = ==_refl f.entry in ground arith)

  initial-DomInv : DomInv f rest distinct initial
  initial-DomInv = record {
    entry_set = initial_entry;
    wide = λ b m. elim (initial_either b m) [
      | inl e ↦
          ap (λ k. length (initial k)) e
          ∙ ap length initial_entry
          ∙ length-set (zeros (width f rest distinct)) 0
          ∙ length-zeros (width f rest distinct)
      | inr e ↦ ap length (initial_rest b e) ∙ length-ones (width f rest distinct)
    ];
    above = λ b m.
        let long =
          length-new_dom f (idx f rest distinct) (width f rest distinct)
            (position (idx f rest distinct) b) b initial in
        subst (λ v. SubBits (next f rest distinct b initial) v) (sym (initial_rest b m))
          (SubBits-bits (next f rest distinct b initial) (ones (width f rest distinct))
            (long ∙ sym (length-ones (width f rest distinct)))
            (λ j t.
              let top = test_inside (next f rest distinct b initial) j t in
              test-ones (width f rest distinct) j (omega (arith, long, top))));
    sound = λ b j d m at clear. elim (initial_either b m) [
      | inl e ↦
          subst (λ k. Avoids f d k) (sym e)
            (entry-Avoids j d at (sym (ap (λ v. test v j) (ap initial e ∙ initial_entry)) ∙ clear))
      | inr e ↦
          let small : j < width f rest distinct = get_elem?-lt (f.entry ∷ rest) j d at in
          let bit = test-ones (width f rest distinct) j small in
          let same = ap (λ v. test v j) (initial_rest b e) in absurd (ground arith)
    ];
  }

  abbrev Ends : Type 0
  Ends =
      Settled BitVec BitVec (dom_step f (idx f rest distinct) (width f rest distinct)) rest
        (dom_step-Analysis f rest distinct g)
        (iterate (dom_step f (idx f rest distinct) (width f rest distinct))
          (suc (length rest * width f rest distinct)) rest initial)

  initial_small : (b : ℕ) → count (initial b) ≤ width f rest distinct
  initial_small b =
      let c = count-le-length (initial b) in
      elim (Bool-cases (elem b (f.entry ∷ rest))) [
        | inl e ↦ let l = initial-DomInv.wide b e in omega (arith, c, l)
        | inr e ↦
            let other : (f.entry == b) ≡ false = ground arith in
            let gone : initial b ≡ [] = rw other (
              fill_at (λ _. ones (width f rest distinct)) (f.entry ∷ rest) (λ _. []) b
              ∙ rw e refl) in
            let l = ap length gone in omega (arith, c, l)
      ]

  iterate-doms : Ends
  unfolding dom_step-Analysis
  iterate-doms =
      let an = dom_step-Analysis f rest distinct g in
      let step = dom_step f (idx f rest distinct) (width f rest distinct) in
      let small =
        total-le BitVec BitVec step rest an (width f rest distinct) rest initial initial_small in
      iterate-Settled BitVec BitVec step rest an (suc (length rest * width f rest distinct)) initial
        initial-DomInv (omega (arith, small))

  -- A state that no step changes has no bit too many.
  module _ (V : ℕ → BitVec) (i : DomInv f rest distinct V)
      (fixed : (b : ℕ) → elem b rest ≡ true → next f rest distinct b V ≡ V b)
      (forward : (a b : ℕ)
        → elem a (f.entry ∷ rest) ≡ true
        → elem b (f.successors a) ≡ true
        → elem b (f.entry ∷ rest) ≡ true)
      (listed : ListsPreds f) (j d : ℕ) (at : get_elem? (f.entry ∷ rest) j ≡ some d) where
    entry_clear : f.entry ≢ d → test (V f.entry) j ≡ false
    entry_clear ne =
        let small : j < width f rest distinct = get_elem?-lt (f.entry ∷ rest) j d at in
        let z = length-zeros (width f rest distinct) in
        let bit = test-set (zeros (width f rest distinct)) 0 j (omega (arith, z, small)) in
        let none_set = test-zeros (width f rest distinct) j in
        let same = ap (λ v. test v j) i.entry_set in
        let apart = same_position f rest distinct j f.entry d (ground arith) at in
        let here = same_position f rest distinct 0 f.entry f.entry (ground arith) refl in
        let self = ==_refl f.entry in let no = ==_ne f.entry d ne in ground arith

    Avoids-inside : (b : ℕ) → Avoids f d b → elem b (f.entry ∷ rest) ≡ true
    Avoids-inside b (from_entry ne) = ground arith
    Avoids-inside b (onward a _ e ne h) = forward a b (Avoids-inside a h) e

    Avoids-clear : (b : ℕ) → Avoids f d b → test (V b) j ≡ false
    Avoids-clear b (from_entry ne) = entry_clear ne
    Avoids-clear b (onward a _ e ne h) =
        let before = Avoids-clear a h in
        let a_in = Avoids-inside a h in
        let b_in = forward a b a_in e in
        elim (initial_either b b_in) [
          | inl is ↦ ap (λ k. test (V k) j) is ∙ entry_clear (λ same. ne (is ∙ same))
          | inr later ↦
              let small : j < width f rest distinct = get_elem?-lt (f.entry ∷ rest) j d at in
              let bit =
                test-new_dom f (idx f rest distinct) (width f rest distinct)
                  (position (idx f rest distinct) b) b V j small in
              let lacks =
                all_have_lacks (idx f rest distinct) V j a (f.predecessors b) (listed a b e)
                  (known-elem f rest distinct a ∙ a_in) before in
              let apart = same_position f rest distinct j b d b_in at in
              let no = ==_ne b d ne in sym (ap (λ v. test v j) (fixed b later)) ∙ ground arith
        ]

module _ (f : Function) (cfg : IsCfg (cfg_of f) (blocks_of f)) (listed : ListsPreds f)
    (rest : List ℕ) (distinct : Distinct (f.entry ∷ rest))
    (visits : (m : ℕ) → (elem m (f.entry ∷ rest) ≡ true) ↔ Reachable (cfg_of f) m) where
  pred_reached :
      (b : ℕ)
      → Reachable (cfg_of f) b
      → elem b rest ≡ true
      → (p : ℕ) × (elem p (f.predecessors b) ≡ true) × (elem p (f.entry ∷ rest) ≡ true)
  pred_reached b at_entry m = absurd (ground (arith, distinct.0))
  pred_reached b (along a _ e r) m = (a, listed a b e, (visits a).1 r)

  reached-HasPreds : HasPreds f rest distinct
  reached-HasPreds = record {
    pred_of = λ b m. pred_reached b ((visits b).0 (ground arith)) m;
    back = λ a b m e.
        (cfg.pred_in a b (Reachable-inside (cfg_of f) (blocks_of f) cfg b ((visits b).0 m)) e).1;
  }

  forward_order :
      (a b : ℕ)
      → elem a (f.entry ∷ rest) ≡ true
      → elem b (f.successors a) ≡ true
      → elem b (f.entry ∷ rest) ≡ true
  forward_order a b m e = (visits b).1 (along a b e ((visits a).0 m))

  dominators_on-Avoids :
      (info : DomInfo) × (dominators_on f f.entry rest ≡ some info)
      × (info.order ≡ f.entry ∷ rest)
      × (info.idom ≡ idoms (f.entry ∷ rest) (idx f rest distinct) info.dom f.entry rest)
      × ((b : ℕ) → elem b (f.entry ∷ rest) ≡ true → length (info.dom b) ≡ suc (length rest))
      × ((b j d : ℕ)
          → Reachable (cfg_of f) b
          → get_elem? (f.entry ∷ rest) j ≡ some d
          → (test (info.dom b) j ≡ false) ↔ Avoids f d b)
  unfolding dominators_on dom_step-Analysis
  dominators_on-Avoids =
      let g = reached-HasPreds in
      let s = iterate-doms f rest distinct g in
      let fixed =
        λ (b : ℕ) (m : elem b rest ≡ true). step_fixed f rest distinct b s.end (s.fixed b m) in
      (
        record {
          order = f.entry ∷ rest;
          idx = idx f rest distinct;
          dom = s.end;
          idom = idoms (f.entry ∷ rest) (idx f rest distinct) s.end f.entry rest;
        },
        rw (s.returns) refl,
        refl,
        refl,
        s.inv.wide,
        λ b j d r at. (
          λ t. s.inv.sound b j d ((visits b).1 r) at t,
          λ a. Avoids-clear f rest distinct g s.end s.inv fixed forward_order listed j d at b a,
        ),
      )

-- What computeDominators returns, with the order split into its first block and the others.
pub record Computed (f : Function) : Type 0 where
  pub rest : List ℕ
  pub distinct : Distinct (f.entry ∷ rest)
  pub visits : (m : ℕ) → (elem m (f.entry ∷ rest) ≡ true) ↔ Reachable (cfg_of f) m
  pub info : DomInfo
  pub returns : compute_dominators f ≡ some info
  pub order_is : info.order ≡ f.entry ∷ rest
  pub idoms_are : info.idom ≡ idoms (f.entry ∷ rest) (idx f rest distinct) info.dom f.entry rest
  pub wide : (b : ℕ) → elem b (f.entry ∷ rest) ≡ true → length (info.dom b) ≡ suc (length rest)
  pub exact :
      (b j d : ℕ)
      → Reachable (cfg_of f) b
      → get_elem? (f.entry ∷ rest) j ≡ some d
      → (test (info.dom b) j ≡ false) ↔ Avoids f d b

pub computed : (f : Function) → IsCfg (cfg_of f) (blocks_of f) → ListsPreds f → Computed f
unfolding compute_dominators
computed f cfg listed =
    let (all, found, visits) = visit_order-Reachable f cfg in
    let (rest, split) = visit_order-StartsWith f all found in
    let distinct : Distinct (f.entry ∷ rest) =
      subst (λ l. Distinct l) split (visit_order-Distinct f cfg all found) in
    let reached : (m : ℕ) → (elem m (f.entry ∷ rest) ≡ true) ↔ Reachable (cfg_of f) m =
      subst (λ l. (m : ℕ) → (elem m l ≡ true) ↔ Reachable (cfg_of f) m) split visits in
    let (info, returns, same, idoms_are, wide, exact) =
      dominators_on-Avoids f cfg listed rest distinct reached in
    record {
      rest = rest;
      distinct = distinct;
      visits = reached;
      info = info;
      returns = rw (found, split) returns;
      order_is = same;
      idoms_are = idoms_are;
      wide = wide;
      exact = exact;
    }

-- For a function whose edges stay inside it and whose predecessor lists agree with its successor lists,
-- computeDominators ends. Its order holds exactly the reachable blocks; and for each reachable block and
-- each block of the order, the dominator set lacks the second one's bit exactly when a path from the
-- entry block to the first one avoids the second one.
pub compute_dominators-Avoids :
    (f : Function)
    → IsCfg (cfg_of f) (blocks_of f)
    → ListsPreds f
    → (info : DomInfo) × (compute_dominators f ≡ some info)
      × ((m : ℕ) → (elem m info.order ≡ true) ↔ Reachable (cfg_of f) m)
      × ((b j d : ℕ)
          → Reachable (cfg_of f) b
          → get_elem? info.order j ≡ some d
          → (test (info.dom b) j ≡ false) ↔ Avoids f d b)
compute_dominators-Avoids f cfg listed =
    let p = computed f cfg listed in
    (
      p.info,
      p.returns,
      λ m. rw (p.order_is) (p.visits m),
      λ b j d r at. p.exact b j d r (rw (p.order_is) at at),
    )
