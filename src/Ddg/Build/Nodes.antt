-- ===== src/Ddg/Build/Nodes.antt =====
-- The nodes that the first pass makes, and the map to them.
use llvm_scheduling_reg_pres.Base.{
  ℕ, suc, ◌<◌, ◌≡◌, refl, subst, Bool, true, false, List, [], ◌∷◌, ◌++◌, some, ◌==◌, ltb, elem,
  elem-append, Distinct, Before, Before-append_cases, Before-elem, Before-elem_right, arith,
  Bool-cases, inl, inr, select, append-nil, append_assoc, Distinct-apart, Distinct-select, elem-ne,
}
use llvm_scheduling_reg_pres.Base.Int.{pos}
use llvm_scheduling_reg_pres.Ir.{Ir}
use llvm_scheduling_reg_pres.Ddg.Edges.{succs, preds, Distinct-snoc}
use llvm_scheduling_reg_pres.Ddg.Build.{Builder, add_node, add_nodes, no_nodes}

-- What holds of the builder when the instructions `made` have nodes, in this order.
pub record IsBuilt (made : List ℕ) (b : Builder) : Type 0 where
  pub small : (i k : ℕ) → b.instr_to_node i ≡ some k → k < b.fresh
  pub named : (i k : ℕ) → b.instr_to_node i ≡ some k → (b.ddg.heap k).instr ≡ i
  pub back : (k : ℕ) → k < b.fresh → b.instr_to_node (b.ddg.heap k).instr ≡ some k
  pub total : (i : ℕ) → elem i made ≡ true → (k : ℕ) × (b.instr_to_node i ≡ some k)
  pub known : (i k : ℕ) → b.instr_to_node i ≡ some k → elem i made ≡ true
  pub increasing :
      (i j k l : ℕ)
      → Before made i j
      → b.instr_to_node i ≡ some k
      → b.instr_to_node j ≡ some l
      → k < l
  pub nodes : (k : ℕ) → elem k b.ddg.nodes ≡ ltb k b.fresh
  pub distinct : Distinct b.ddg.nodes
  pub no_succs : (k : ℕ) → succs b.ddg k ≡ []
  pub no_preds : (k : ℕ) → preds b.ddg k ≡ []
  pub no_count : (k : ℕ) → (b.ddg.heap k).pred_count ≡ pos 0

IsBuilt-no_nodes : IsBuilt [] no_nodes
IsBuilt-no_nodes = record {
  small = λ i k e. cc;
  named = λ i k e. cc;
  back = λ k h. absurd (omega arith);
  total = λ i e. absurd (ground arith);
  known = λ i k e. cc;
  increasing = λ i j k l h. absurd h;
  nodes = λ k. ground arith;
  distinct = tt;
  no_succs = λ k. refl;
  no_preds = λ k. refl;
  no_count = λ k. refl;
}

module _ (ir : Ir) (made : List ℕ) (b : Builder) (built : IsBuilt made b) (i : ℕ)
    (new : elem i made ≡ false) where
  not_mapped : (k : ℕ) → b.instr_to_node i ≡ some k → ⊥
  not_mapped k e = let old = built.known i k e in cc

  old_lookup :
      (j k : ℕ)
      → elem j made ≡ true
      → (add_node ir i b).instr_to_node j ≡ some k
      → b.instr_to_node j ≡ some k
  old_lookup j k m e = let ne = elem-ne j i made m new in ground arith

  back_add_node :
      (k : ℕ)
      → k < suc b.fresh
      → (add_node ir i b).instr_to_node ((add_node ir i b).ddg.heap k).instr ≡ some k
  back_add_node k h = elim (Bool-cases (b.fresh == k)) [
    | inl e ↦ ground arith
    | inr e ↦
        let old = built.back k (ground arith) in
        let instr = (b.ddg.heap k).instr in
        let old_known = built.known instr k old in
        let ne = elem-ne instr i made old_known new in ground arith
  ]

  total_add_node :
      (j : ℕ)
      → elem j (made ++ i ∷ []) ≡ true
      → (k : ℕ) × ((add_node ir i b).instr_to_node j ≡ some k)
  total_add_node j e = elim (Bool-cases (i == j)) [
    | inl same ↦ (b.fresh, ground arith)
    | inr other ↦
        let (k, e') = built.total j (ground (arith, elem-append j made (i ∷ []))) in
        (k, ground arith)
  ]

  increasing_add_node :
      (j l x y : ℕ)
      → Before (made ++ i ∷ []) j l
      → (add_node ir i b).instr_to_node j ≡ some x
      → (add_node ir i b).instr_to_node l ≡ some y
      → x < y
  increasing_add_node j l x y h e f = elim (Before-append_cases j l made (i ∷ []) h) [
    | inl p ↦
        built.increasing j l x y p (old_lookup j x (Before-elem j l made p) e)
          (old_lookup l y (Before-elem_right j l made p) f)
    | inr (inl p) ↦ let old = built.small j x (old_lookup j x p.0 e) in ground arith
    | inr (inr p) ↦ ground arith
  ]

  IsBuilt-add_node : IsBuilt (made ++ i ∷ []) (add_node ir i b)
  IsBuilt-add_node = record {
    small = λ j k e. ground (arith, built.small j k);
    named = λ j k e. ground (arith, built.small j k, built.named j k);
    back = λ k h. back_add_node k h;
    total = λ j e. total_add_node j e;
    known = λ j k e. ground (arith, built.known j k, elem-append j made (i ∷ []));
    increasing = λ j l x y h e f. increasing_add_node j l x y h e f;
    nodes = λ k. ground (arith, built.nodes k, elem-append k b.ddg.nodes (b.fresh ∷ []));
    distinct =
        Distinct-snoc b.ddg.nodes b.fresh built.distinct (ground (arith, built.nodes b.fresh));
    no_succs = λ k. ground (arith, built.no_succs k);
    no_preds = λ k. ground (arith, built.no_preds k);
    no_count = λ k. ground (arith, built.no_count k);
  }

add_nodes-IsBuilt :
    (has_node : ℕ → Bool) (ir : Ir) (is made : List ℕ) (b : Builder)
    → Distinct (made ++ select has_node is)
    → IsBuilt made b
    → IsBuilt (made ++ select has_node is) (add_nodes has_node ir is b)
unfolding add_nodes
add_nodes-IsBuilt has_node ir [] made b d built = rw append-nil built
add_nodes-IsBuilt has_node ir (i ∷ is) made b d built = elim (Bool-cases (has_node i)) [
  | inr e ↦ rw e (add_nodes-IsBuilt has_node ir is made b (rw e at d) built)
  | inl e ↦
      let d' : Distinct (made ++ i ∷ select has_node is) = rw e at d in
      rw e (
        subst (λ l. IsBuilt l (add_nodes has_node ir is (add_node ir i b)))
          (append_assoc made (i ∷ []) (select has_node is))
          (add_nodes-IsBuilt has_node ir is (made ++ i ∷ []) (add_node ir i b) (rw append_assoc d')
            (IsBuilt-add_node ir made b built i
              (Distinct-apart i made (i ∷ select has_node is) d' (ground arith)))))
]

-- The first pass over instructions that are all different.
pub add_nodes-no_nodes :
    (has_node : ℕ → Bool) (ir : Ir) (is : List ℕ)
    → Distinct is
    → IsBuilt (select has_node is) (add_nodes has_node ir is no_nodes)
add_nodes-no_nodes has_node ir is d =
    add_nodes-IsBuilt has_node ir is [] no_nodes (Distinct-select has_node is d) IsBuilt-no_nodes
