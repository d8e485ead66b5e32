-- ===== src/Ddg/Build/Correct.antt =====
-- The graphs that buildDDG and buildLocalDDG return.
use mathlib.Core.List.{flatten}
use llvm_scheduling_reg_pres.Base.{
  ℕ, ◌<◌, ◌≡◌, refl, sym, ap, subst, ◌∙◌, Bool, true, not, ◌&&◌, List, [], ◌∷◌, Option, some, elem,
  elem-select, select, Distinct, Before, BeforeIn, arith, inl, inr, ◌⊎◌, ◌↔◌, append-nil,
}
use llvm_scheduling_reg_pres.Ir.{Ir, is_phi}
use llvm_scheduling_reg_pres.Ddg.{Ddg}
use llvm_scheduling_reg_pres.Ddg.Edges.{IsWf, edge}
use llvm_scheduling_reg_pres.Ddg.Build.{
  Builder, NodeMap, add_nodes, link_all, order_block, order_blocks, is_ordered, no_nodes, build,
  build_ddg, build_local_ddg,
}
use llvm_scheduling_reg_pres.Ddg.Build.Nodes.{IsBuilt, add_nodes-no_nodes}
use llvm_scheduling_reg_pres.Ddg.Build.Linked.{Linked, Linked-trans}
use llvm_scheduling_reg_pres.Ddg.Build.Links.{uses, link_all-Linked, link_all-made}
use llvm_scheduling_reg_pres.Ddg.Build.Orders.{
  order_block-Linked, order_block-made, order_blocks-Linked, AllOrders,
}

module _ (takes gives : ℕ → Bool) (ir : Ir) (blocks : List (List ℕ)) where
  -- `j` has to wait for `i`: it uses its result, or both may touch memory or have other effects and
  -- `i` stands before it in one block.
  abbrev pub DependsOn : ℕ → ℕ → Type 0
  DependsOn j i =
      (takes j ≡ true) × (gives i ≡ true) × (uses i (ir j).operands ≡ true)
      ⊎ (is_ordered (ir i) ≡ true) × (is_ordered (ir j) ≡ true) × BeforeIn blocks i j

-- A graph with one node for each instruction of `is`, in this order, and an edge for each dependence
-- between two of them.
pub record Represents (ir : Ir) (is : List ℕ) (Needs : ℕ → ℕ → Type 0) (g : Ddg) : Type 0 where
  pub wf : IsWf g
  pub distinct : Distinct g.nodes
  pub node_of :
      (i : ℕ) → elem i is ≡ true → (k : ℕ) × (elem k g.nodes ≡ true) × ((g.heap k).instr ≡ i)
  pub of_instr : (k : ℕ) → elem k g.nodes ≡ true → elem (g.heap k).instr is ≡ true
  pub injective :
      (k l : ℕ)
      → elem k g.nodes ≡ true
      → elem l g.nodes ≡ true
      → (g.heap k).instr ≡ (g.heap l).instr
      → k ≡ l
  pub increasing :
      (k l : ℕ)
      → elem k g.nodes ≡ true
      → elem l g.nodes ≡ true
      → Before is (g.heap k).instr (g.heap l).instr
      → k < l
  pub edges :
      (k l : ℕ)
      → elem k g.nodes ≡ true
      → elem l g.nodes ≡ true
      → (edge g k l ≡ true) ↔ Needs (g.heap l).instr (g.heap k).instr

module _ (has_node takes gives : ℕ → Bool) (ir : Ir) (blocks : List (List ℕ))
    (nodup : Distinct (flatten blocks)) where
  abbrev is : List ℕ
  is = flatten blocks

  abbrev b : Builder
  b = add_nodes has_node ir is no_nodes

  abbrev m : NodeMap
  m = b.instr_to_node

  built : IsBuilt (select has_node is) b
  built = add_nodes-no_nodes has_node ir is nodup

  -- An edge that the code asks for.
  abbrev P : ℕ → ℕ → Type 0
  P s d = (i : ℕ) × (j : ℕ) × (m i ≡ some s) × (m j ≡ some d) × DependsOn takes gives ir blocks j i

  mapped : (i k : ℕ) → m i ≡ some k → elem k b.ddg.nodes ≡ true
  mapped i k e = ground (arith, built.nodes k, built.small i k e)

  IsWf-b : IsWf b.ddg
  IsWf-b = record {
    mirrored = λ x y. rw (built.no_preds y, built.no_succs x);
    distinct_succs = λ x. rw (built.no_succs x) tt;
    distinct_preds = λ x. rw (built.no_preds x) tt;
    counted = λ x. rw (built.no_preds x, built.no_count x);
    closed_from = λ x y e. let h = rw (built.no_succs x) at e in absurd (ground arith);
    closed_to = λ x y e. let h = rw (built.no_succs x) at e in absurd (ground arith);
  }

  orders_in :
      (rest : List (List ℕ))
      → ((i j : ℕ) → BeforeIn rest i j → BeforeIn blocks i j)
      → AllOrders P m b.ddg.nodes mapped ir rest
  orders_in [] within = tt
  orders_in (block ∷ rest) within = (
    λ i j s d h ordered found_i found_j. elim h [
      | inl none_yet ↦ absurd (ground arith)
      | inr (ordered_i, before) ↦
          (i, j, found_i, found_j, inr (ordered_i, ordered, within i j (inl before)))
    ],
    orders_in rest (λ i j h. within i j (inr h)),
  )

  asks :
      (i j s d : ℕ)
      → elem i is ≡ true
      → takes i ≡ true
      → gives j ≡ true
      → uses j (ir i).operands ≡ true
      → m j ≡ some s
      → m i ≡ some d
      → P s d
  asks i j s d _ takes_i gives_j u found_j found_i =
      (j, i, found_j, found_i, inl (takes_i, gives_j, u))

  abbrev linked_graph : Ddg
  linked_graph = link_all takes gives ir m is b.ddg

  abbrev result : Ddg
  result = order_blocks ir m blocks linked_graph

  first : Linked P b.ddg linked_graph
  first = link_all-Linked P m b.ddg.nodes mapped takes gives ir is b.ddg asks refl

  second : Linked P linked_graph result
  second =
      order_blocks-Linked P m b.ddg.nodes mapped ir blocks linked_graph (first.nodes)
        (orders_in blocks (λ i j h. h))

  both : Linked P b.ddg result
  both = Linked-trans first second

  order_blocks-made :
      (rest : List (List ℕ)) (g : Ddg)
      → g.nodes ≡ b.ddg.nodes
      → AllOrders P m b.ddg.nodes mapped ir rest
      → (i j s d : ℕ) → BeforeIn rest i j
      → is_ordered (ir i) ≡ true
      → is_ordered (ir j) ≡ true
      → m i ≡ some s
      → m j ≡ some d
      → edge (order_blocks ir m rest g) s d ≡ true
  unfolding order_blocks
  order_blocks-made [] g has o i j s d h oi oj fi fj = absurd h
  order_blocks-made (block ∷ rest) g has o i j s d (inl h) oi oj fi fj =
      let here = order_block-Linked P m b.ddg.nodes mapped ir [] block g has o.0 in
      (order_blocks-Linked P m b.ddg.nodes mapped ir rest (order_block ir m [] block g)
          (here.nodes ∙ has) o.1).kept
        s d
        (order_block-made P m b.ddg.nodes mapped ir [] block g has o.0 i j s d (inr (oi, h)) oj fi
          fj)
  order_blocks-made (block ∷ rest) g has o i j s d (inr h) oi oj fi fj =
      let here = order_block-Linked P m b.ddg.nodes mapped ir [] block g has o.0 in
      order_blocks-made rest (order_block ir m [] block g) (here.nodes ∙ has) o.1 i j s d h oi oj fi
        fj

  at_node : (k : ℕ) → elem k result.nodes ≡ true → m (result.heap k).instr ≡ some k
  at_node k e =
      let old : elem k b.ddg.nodes ≡ true = rw (← both.nodes) e in
      rw (both.instr k) (built.back k (ground (arith, built.nodes k)))

  in_block : (k : ℕ) → elem k result.nodes ≡ true → elem (result.heap k).instr is ≡ true
  in_block k e = ground (
    arith,
    built.known (result.heap k).instr k (at_node k e),
    elem-select has_node (result.heap k).instr is,
  )

  result-edges :
      (k l : ℕ)
      → elem k result.nodes ≡ true
      → elem l result.nodes ≡ true
      → (edge result k l ≡ true)
        ↔ DependsOn takes gives ir blocks (result.heap l).instr (result.heap k).instr
  result-edges k l mk ml = (sound, complete)
    where
      sound :
          edge result k l ≡ true
          → DependsOn takes gives ir blocks (result.heap l).instr (result.heap k).instr
      sound e = elim (both.added k l e) [
        | inl old ↦ let h = rw (built.no_succs k) at old in absurd (ground arith)
        | inr (i, j, fi, fj, dep) ↦
            rw (both.instr k, both.instr l, built.named i k fi, built.named j l fj) dep
      ]

      complete :
          DependsOn takes gives ir blocks (result.heap l).instr (result.heap k).instr
          → edge result k l ≡ true
      complete (inl (t, g, u)) = second.kept k l (
          link_all-made P m b.ddg.nodes mapped takes gives ir is b.ddg asks refl
            (result.heap l).instr (result.heap k).instr k l (in_block l ml) t g u (at_node k mk)
            (at_node l ml))
      complete (inr (oi, oj, h)) =
          order_blocks-made blocks linked_graph first.nodes (orders_in blocks (λ i j h'. h'))
            (result.heap k).instr (result.heap l).instr k l h oi oj (at_node k mk) (at_node l ml)

  build-Represents :
      Represents ir
        (select has_node is)
        (DependsOn takes gives ir blocks)
        (build has_node takes gives ir blocks)
  unfolding build
  build-Represents = record {
    wf = both.wf IsWf-b;
    distinct = rw (both.nodes) built.distinct;
    node_of = λ i e.
        let (k, found) = built.total i e in
        (k, rw (both.nodes) (mapped i k found), both.instr k ∙ built.named i k found);
    of_instr = λ k e. built.known (result.heap k).instr k (at_node k e);
    injective = λ k l mk ml e.
        let same : ◌≡◌ {A = Option ℕ} (some k) (some l) =
          sym (at_node k mk) ∙ ap m e ∙ at_node l ml in
        cc;
    increasing = λ k l mk ml h.
        built.increasing (result.heap k).instr (result.heap l).instr k l h (at_node k mk)
          (at_node l ml);
    edges = result-edges;
  }

-- For a trace that holds no instruction twice, buildDDG makes one node for each instruction that is
-- no PHI, in the order of the trace, in a well-formed graph, with an edge from one to another exactly
-- when the second one uses the first one's result and neither is a terminator, or both may touch
-- memory or have other effects and the first stands before the second in one block.
pub build_ddg-Represents :
    (ir : Ir) (trace : List (List ℕ))
    → Distinct (flatten trace)
    → Represents ir
        (select (λ i. not (is_phi (ir i))) (flatten trace))
        (DependsOn
          (λ i. not (is_phi (ir i)) && not (ir i).is_terminator)
          (λ i. not (is_phi (ir i)) && not (ir i).is_terminator)
          ir
          trace)
        (build_ddg ir trace)
unfolding build_ddg
build_ddg-Represents ir trace d =
    let linked = λ (i : ℕ). not (is_phi (ir i)) && not (ir i).is_terminator in
    build-Represents (λ i. not (is_phi (ir i))) linked linked ir trace d

select-all : (xs : List ℕ) → select (λ _. true) xs ≡ xs
select-all [] = refl
select-all (x ∷ xs) = ap (λ l. x ∷ l) (select-all xs)

flatten-singleton : (xs : List ℕ) → flatten (xs ∷ []) ≡ xs
unfolding flatten
flatten-singleton xs = append-nil xs

-- In one block, `j` has to wait for `i`.
abbrev pub WaitsFor : Ir → List ℕ → ℕ → ℕ → Type 0
WaitsFor ir block j i =
    (uses i (ir j).operands ≡ true)
    ⊎ (is_ordered (ir i) ≡ true) × (is_ordered (ir j) ≡ true) × Before block i j

DependsOn-WaitsFor :
    (ir : Ir) (block : List ℕ) (j i : ℕ)
    → DependsOn (λ _. true) (λ _. true) ir (block ∷ []) j i ↔ WaitsFor ir block j i
DependsOn-WaitsFor ir block j i = (to, of)
  where
    to : DependsOn (λ _. true) (λ _. true) ir (block ∷ []) j i → WaitsFor ir block j i
    to (inl h) = inl h.2
    to (inr (oi, oj, inl h)) = inr (oi, oj, h)
    to (inr (oi, oj, inr h)) = absurd h

    of : WaitsFor ir block j i → DependsOn (λ _. true) (λ _. true) ir (block ∷ []) j i
    of (inl h) = inl (refl, refl, h)
    of (inr (oi, oj, h)) = inr (oi, oj, inl h)

-- For a block that holds no instruction twice, buildLocalDDG makes one node for each instruction, in
-- the order of the block, in a well-formed graph, with an edge from one to another exactly when the
-- second one uses the first one's result, or both may touch memory or have other effects and the
-- first stands before the second.
pub build_local_ddg-Represents :
    (ir : Ir) (block : List ℕ)
    → Distinct block
    → Represents ir block (WaitsFor ir block) (build_local_ddg ir block)
unfolding build_local_ddg
build_local_ddg-Represents ir block d =
    let everything = λ (i : ℕ). true in
    let same = select-all (flatten (block ∷ [])) ∙ flatten-singleton block in
    let r =
      subst
        (λ l.
          Represents ir l (DependsOn everything everything ir (block ∷ []))
            (build everything everything everything ir (block ∷ [])))
        same
        (build-Represents everything everything everything ir (block ∷ [])
          (rw (flatten-singleton block) d)) in
    record {
      wf = r.wf;
      distinct = r.distinct;
      node_of = r.node_of;
      of_instr = r.of_instr;
      injective = r.injective;
      increasing = r.increasing;
      edges = λ k l mk ml. (
        λ e. (DependsOn-WaitsFor ir block _ _).0 ((r.edges k l mk ml).0 e),
        λ w. (r.edges k l mk ml).1 ((DependsOn-WaitsFor ir block _ _).1 w),
      );
    }
