-- ===== src/Ddg/Build/Links.antt =====
-- The edges that the second pass adds.
use llvm_scheduling_reg_pres.Base.{
  ℕ, ◌≡◌, subst, ◌∙◌, Bool, true, false, ◌||◌, List, [], ◌∷◌, none, some, ◌==◌, elem, arith,
  Bool-cases, Option-cases, inl, inr, ==_iff,
}
use llvm_scheduling_reg_pres.Ir.{Ir, Value, as_instruction, instruction, argument, constant}
use llvm_scheduling_reg_pres.Ddg.{Ddg}
use llvm_scheduling_reg_pres.Ddg.Edges.{edge}
use llvm_scheduling_reg_pres.Ddg.Build.{NodeMap, link_operand, link_operands, link_instr, link_all}
use llvm_scheduling_reg_pres.Ddg.Build.Linked.{
  Linked, Linked-refl, Linked-trans, Linked-add_edge, edge-add_edge_self,
}

-- Instruction `i` is an operand.
abbrev pub uses : ℕ → List Value → Bool
uses i [] = false
uses i (v ∷ vs) = elim (as_instruction v) [ none ↦ uses i vs | some j ↦ i == j || uses i vs ]

module _ (P : ℕ → ℕ → Type 0) (m : NodeMap) (nodes : List ℕ)
    (mapped : (i k : ℕ) → m i ≡ some k → elem k nodes ≡ true) where
  -- The graph has the nodes that the map leads to.
  abbrev Has : Ddg → Type 0
  Has g = g.nodes ≡ nodes

  link_operand-Linked :
      (gives : ℕ → Bool) (i dst : ℕ) (v : Value) (g : Ddg)
      → Has g
      → m i ≡ some dst
      → ((j src : ℕ) → uses j (v ∷ []) ≡ true → gives j ≡ true → m j ≡ some src → P src dst)
      → Linked P g (link_operand gives m dst v g)
  link_operand-Linked gives i dst (argument a) g has e p = Linked-refl g
  link_operand-Linked gives i dst (constant a) g has e p = Linked-refl g
  link_operand-Linked gives i dst (instruction j) g has e p = elim (Bool-cases (gives j)) [
    | inr no_edge ↦ rw no_edge (Linked-refl g)
    | inl gives_j ↦ elim (Option-cases (m j)) [
      | inl absent ↦ rw (gives_j, absent) (Linked-refl g)
      | inr (src, found) ↦
          rw (gives_j, found)
            (Linked-add_edge src dst g (p j src (ground arith) gives_j found)
              (rw has (mapped j src found)) (rw has (mapped i dst e)))
    ]
  ]

  link_operands-Linked :
      (gives : ℕ → Bool) (i dst : ℕ) (vs : List Value) (g : Ddg)
      → Has g
      → m i ≡ some dst
      → ((j src : ℕ) → uses j vs ≡ true → gives j ≡ true → m j ≡ some src → P src dst)
      → Linked P g (link_operands gives m dst vs g)
  unfolding link_operands
  link_operands-Linked gives i dst [] g has e p = Linked-refl g
  link_operands-Linked gives i dst (v ∷ vs) g has e p =
      let first =
        link_operand-Linked gives i dst v g has e (λ j src u. p j src (uses_first j v vs u)) in
      Linked-trans first (
        link_operands-Linked gives i dst vs (link_operand gives m dst v g) (first.nodes ∙ has) e
          (λ j src u. p j src (uses_later j v vs u)))
    where
      uses_first :
          (j : ℕ) (w : Value) (ws : List Value) → uses j (w ∷ []) ≡ true → uses j (w ∷ ws) ≡ true
      uses_first j w ws u = ground arith

      uses_later : (j : ℕ) (w : Value) (ws : List Value) → uses j ws ≡ true → uses j (w ∷ ws) ≡ true
      uses_later j w ws u = ground arith

  link_operands-made :
      (gives : ℕ → Bool) (i dst : ℕ) (vs : List Value) (g : Ddg)
      → Has g
      → m i ≡ some dst
      → ((j src : ℕ) → uses j vs ≡ true → gives j ≡ true → m j ≡ some src → P src dst)
      → (j src : ℕ) → uses j vs ≡ true
      → gives j ≡ true
      → m j ≡ some src
      → edge (link_operands gives m dst vs g) src dst ≡ true
  unfolding link_operands
  link_operands-made gives i dst [] g has e p j src u gives_j found = absurd (ground arith)
  link_operands-made gives i dst (v ∷ vs) g has e p j src u gives_j found =
      let g₁ = link_operand gives m dst v g in
      let first = link_operand-Linked gives i dst v g has e (λ k s u'. p k s (uses_first k u')) in
      elim (Bool-cases (uses j vs)) [
        | inl later ↦
            link_operands-made gives i dst vs g₁ (first.nodes ∙ has) e
              (λ k s u'. p k s (uses_later k u')) j src later gives_j found
        | inr not_later ↦
            let rest =
              link_operands-Linked gives i dst vs g₁ (first.nodes ∙ has) e
                (λ k s u'. p k s (uses_later k u')) in
            rest.kept src dst (here v (ground arith))
      ]
    where
      uses_first : (k : ℕ) → uses k (v ∷ []) ≡ true → uses k (v ∷ vs) ≡ true
      uses_first k u' = ground arith

      uses_later : (k : ℕ) → uses k vs ≡ true → uses k (v ∷ vs) ≡ true
      uses_later k u' = ground arith

      here :
          (w : Value) → uses j (w ∷ []) ≡ true → edge (link_operand gives m dst w g) src dst ≡ true
      here (argument a) u' = absurd (ground arith)
      here (constant a) u' = absurd (ground arith)
      here (instruction k) u' =
          let same : j ≡ k = (==_iff j k).0 (ground arith) in
          rw (← same, gives_j, found) (edge-add_edge_self src dst g)

  -- The edges that operands ask for lie in `P`.
  abbrev pub Asks : (takes gives : ℕ → Bool) → Ir → List ℕ → Type 0
  Asks takes gives ir is =
      (i j src dst : ℕ)
      → elem i is ≡ true
      → takes i ≡ true
      → gives j ≡ true
      → uses j (ir i).operands ≡ true
      → m j ≡ some src
      → m i ≡ some dst
      → P src dst

  module _ (takes gives : ℕ → Bool) (ir : Ir) where
    link_instr-Linked :
        (i : ℕ) (is : List ℕ) (g : Ddg)
        → Asks takes gives ir (i ∷ is)
        → Has g
        → Linked P g (link_instr takes gives ir m i g)
    unfolding link_instr
    link_instr-Linked i is g asks has = elim (Bool-cases (takes i)) [
      | inr skip ↦ rw skip (Linked-refl g)
      | inl takes_i ↦ elim (Option-cases (m i)) [
        | inl absent ↦ rw (takes_i, absent) (Linked-refl g)
        | inr (dst, found) ↦
            rw (takes_i, found)
              (link_operands-Linked gives i dst (ir i).operands g has found
                (λ j src u gives_j e. asks i j src dst (ground arith) takes_i gives_j u e found))
      ]
    ]

    link_instr-made :
        (i : ℕ) (is : List ℕ) (g : Ddg)
        → Asks takes gives ir (i ∷ is)
        → Has g
        → (j src dst : ℕ) → takes i ≡ true
        → gives j ≡ true
        → uses j (ir i).operands ≡ true
        → m j ≡ some src
        → m i ≡ some dst
        → edge (link_instr takes gives ir m i g) src dst ≡ true
    unfolding link_instr
    link_instr-made i is g asks has j src dst takes_i gives_j u e found =
        rw (takes_i, found)
          (link_operands-made gives i dst (ir i).operands g has found
            (λ k s u' gives_k e'. asks i k s dst (ground arith) takes_i gives_k u' e' found) j src u
            gives_j e)

    pub link_all-Linked :
        (is : List ℕ) (g : Ddg)
        → Asks takes gives ir is
        → Has g
        → Linked P g (link_all takes gives ir m is g)
    unfolding link_all
    link_all-Linked [] g asks has = Linked-refl g
    link_all-Linked (i ∷ is) g asks has =
        let first = link_instr-Linked i is g asks has in
        Linked-trans first (
          link_all-Linked is (link_instr takes gives ir m i g)
            (λ k j s d e. asks k j s d (ground arith)) (first.nodes ∙ has))

    pub link_all-made :
        (is : List ℕ) (g : Ddg)
        → Asks takes gives ir is
        → Has g
        → (i j src dst : ℕ) → elem i is ≡ true
        → takes i ≡ true
        → gives j ≡ true
        → uses j (ir i).operands ≡ true
        → m j ≡ some src
        → m i ≡ some dst
        → edge (link_all takes gives ir m is g) src dst ≡ true
    unfolding link_all
    link_all-made [] g asks has i j src dst e takes_i gives_j u found_j found_i =
        absurd (ground arith)
    link_all-made (k ∷ is) g asks has i j src dst e takes_i gives_j u found_j found_i =
        let first = link_instr-Linked k is g asks has in
        let asks' = λ (i' j' s d : ℕ) (e' : elem i' is ≡ true). asks i' j' s d (ground arith) in
        elim (Bool-cases (i == k)) [
          | inr later ↦
              link_all-made is (link_instr takes gives ir m k g) asks' (first.nodes ∙ has) i j src
                dst (ground arith) takes_i gives_j u found_j found_i
          | inl same ↦
              let i_is = (==_iff i k).0 same in
              (link_all-Linked is (link_instr takes gives ir m k g) asks' (first.nodes ∙ has)).kept
                src dst
                (subst (λ t. edge (link_instr takes gives ir m t g) src dst ≡ true) i_is
                  (link_instr-made i is g (rw (← i_is) at asks) has j src dst takes_i gives_j u
                    found_j found_i))
        ]
