-- ===== src/Ddg/Build/Orders.antt =====
-- The edges that the third pass adds.
use llvm_scheduling_reg_pres.Base.{
  ℕ, ◌≡◌, sym, ◌∙◌, true, List, [], ◌∷◌, ◌++◌, some, ◌==◌, if◌then◌else◌, elem, elem-append, Before,
  arith, Bool-cases, Option-cases, inl, inr, ◌⊎◌, ==_iff,
}
use mathlib.Core.Bool.{false≢true}
use llvm_scheduling_reg_pres.Ir.{Ir}
use llvm_scheduling_reg_pres.Ddg.{Ddg}
use llvm_scheduling_reg_pres.Ddg.Edges.{edge}
use llvm_scheduling_reg_pres.Ddg.Build.{
  NodeMap, is_ordered, order_pair, order_after, order_block, order_blocks,
}
use llvm_scheduling_reg_pres.Ddg.Build.Linked.{
  Linked, Linked-refl, Linked-trans, Linked-add_edge, edge-add_edge_self,
}

module _ (P : ℕ → ℕ → Type 0) (m : NodeMap) (nodes : List ℕ)
    (mapped : (i k : ℕ) → m i ≡ some k → elem k nodes ≡ true) where
  order_pair-Linked :
      (prev i : ℕ) (g : Ddg)
      → g.nodes ≡ nodes
      → ((s d : ℕ) → m prev ≡ some s → m i ≡ some d → P s d)
      → Linked P g (order_pair m prev i g)
  order_pair-Linked prev i g has p = elim (Option-cases (m prev)) [
    | inl absent ↦ rw (absent, order_pair) (Linked-refl g)
    | inr (src, found) ↦ elim (Option-cases (m i)) [
      | inl absent ↦ rw (found, absent, order_pair) (Linked-refl g)
      | inr (dst, found_i) ↦
          rw (found, found_i, order_pair)
            (Linked-add_edge src dst g (p src dst found found_i) (rw has (mapped prev src found))
              (rw has (mapped i dst found_i)))
    ]
  ]

  -- Every pair of one of `prevs` and `i` lies in `P`.
  abbrev PairsWith : List ℕ → ℕ → Type 0
  PairsWith prevs i =
      (prev s d : ℕ) → elem prev prevs ≡ true → m prev ≡ some s → m i ≡ some d → P s d

  order_after-Linked :
      (prevs : List ℕ) (i : ℕ) (g : Ddg)
      → g.nodes ≡ nodes
      → PairsWith prevs i
      → Linked P g (order_after m prevs i g)
  unfolding order_after
  order_after-Linked [] i g has p = Linked-refl g
  order_after-Linked (prev ∷ prevs) i g has p =
      let first = order_pair-Linked prev i g has (λ s d. p prev s d (ground arith)) in
      Linked-trans first (
        order_after-Linked prevs i (order_pair m prev i g) (first.nodes ∙ has)
          (λ k s d e. p k s d (ground arith)))

  order_after-made :
      (prevs : List ℕ) (i : ℕ) (g : Ddg)
      → g.nodes ≡ nodes
      → PairsWith prevs i
      → (prev s d : ℕ) → elem prev prevs ≡ true
      → m prev ≡ some s
      → m i ≡ some d
      → edge (order_after m prevs i g) s d ≡ true
  unfolding order_after
  order_after-made [] i g has p prev s d e found found_i = absurd (ground arith)
  order_after-made (k ∷ prevs) i g has p prev s d e found found_i =
      let first = order_pair-Linked k i g has (λ s' d'. p k s' d' (ground arith)) in
      let p' = λ (j s' d' : ℕ) (e' : elem j prevs ≡ true). p j s' d' (ground arith) in
      let g₁ = order_pair m k i g in
      elim (Bool-cases (prev == k)) [
        | inr later ↦
            order_after-made prevs i g₁ (first.nodes ∙ has) p' prev s d (ground arith) found found_i
        | inl same ↦
            let k_is = (==_iff prev k).0 same in
            (order_after-Linked prevs i g₁ (first.nodes ∙ has) p').kept s d
              (rw (← k_is, found, found_i, order_pair) (edge-add_edge_self s d g))
      ]

  module _ (ir : Ir) where
    -- `a` is an ordered operation before `b`, when `ops` are those before the rest `is`.
    abbrev pub Earlier : List ℕ → List ℕ → ℕ → ℕ → Type 0
    Earlier ops is a b =
        ((elem a ops ≡ true) × (elem b is ≡ true)) ⊎ ((is_ordered (ir a) ≡ true) × Before is a b)

    abbrev pub Orders : List ℕ → List ℕ → Type 0
    Orders ops is =
        (a b s d : ℕ)
        → Earlier ops is a b
        → is_ordered (ir b) ≡ true
        → m a ≡ some s
        → m b ≡ some d
        → P s d

    abbrev next_ops : List ℕ → ℕ → List ℕ
    next_ops ops i = if is_ordered (ir i) then ops ++ i ∷ [] else ops

    abbrev order_one : List ℕ → ℕ → Ddg → Ddg
    order_one ops i g = if is_ordered (ir i) then order_after m ops i g else g

    Earlier-next :
        (ops is : List ℕ) (i a b : ℕ) → Earlier (next_ops ops i) is a b → Earlier ops (i ∷ is) a b
    Earlier-next ops is i a b (inr h) = inr (h.0, inr h.1)
    Earlier-next ops is i a b (inl h) = elim (Bool-cases (elem a ops)) [
      | inl old ↦ inl (old, ground arith)
      | inr new ↦ elim (Bool-cases (is_ordered (ir i))) [
        | inr skip ↦ let h' = rw skip at h in absurd (false≢true (sym new ∙ h'.0))
        | inl keeps ↦
            let h' = rw keeps at h in
            let same : a ≡ i = (==_iff a i).0 (ground (arith, elem-append a ops (i ∷ []))) in
            inr (rw same keeps, inl (sym same, h.1))
      ]
    ]

    order_one-Linked :
        (ops is : List ℕ) (i : ℕ) (g : Ddg)
        → g.nodes ≡ nodes
        → Orders ops (i ∷ is)
        → Linked P g (order_one ops i g)
    order_one-Linked ops is i g has o = elim (Bool-cases (is_ordered (ir i))) [
      | inr skip ↦ rw skip (Linked-refl g)
      | inl keeps ↦
          rw keeps
            (order_after-Linked ops i g has (λ a s d e. o a i s d (inl (e, ground arith)) keeps))
    ]

    pub order_block-Linked :
        (ops is : List ℕ) (g : Ddg)
        → g.nodes ≡ nodes
        → Orders ops is
        → Linked P g (order_block ir m ops is g)
    unfolding order_block
    order_block-Linked ops [] g has o = Linked-refl g
    order_block-Linked ops (i ∷ is) g has o =
        let first = order_one-Linked ops is i g has o in
        Linked-trans first (
          order_block-Linked (next_ops ops i) is (order_one ops i g) (first.nodes ∙ has)
            (λ a b s d e. o a b s d (Earlier-next ops is i a b e)))

    Earlier-rest :
        (ops is : List ℕ) (i a b : ℕ)
        → Earlier ops (i ∷ is) a b
        → ((elem a ops ≡ true) × (b ≡ i)) ⊎ Earlier (next_ops ops i) is a b
    Earlier-rest ops is i a b (inr (keeps, inr h)) = inr (inr (keeps, h))
    Earlier-rest ops is i a b (inr (keeps, inl h)) =
        let ordered : is_ordered (ir i) ≡ true = rw h.0 keeps in
        inr (inl (rw (ordered, h.0) (ground (arith, elem-append a ops (a ∷ []))), h.1))
    Earlier-rest ops is i a b (inl h) = elim (Bool-cases (b == i)) [
      | inl same ↦ inl (h.0, (==_iff b i).0 same)
      | inr later ↦ elim (Bool-cases (is_ordered (ir i))) [
        | inr skip ↦ inr (inl (rw skip h.0, ground arith))
        | inl keeps ↦
            inr (inl (rw keeps (ground (arith, elem-append a ops (i ∷ []))), ground arith))
      ]
    ]

    pub order_block-made :
        (ops is : List ℕ) (g : Ddg)
        → g.nodes ≡ nodes
        → Orders ops is
        → (a b s d : ℕ) → Earlier ops is a b
        → is_ordered (ir b) ≡ true
        → m a ≡ some s
        → m b ≡ some d
        → edge (order_block ir m ops is g) s d ≡ true
    unfolding order_block
    order_block-made ops [] g has o a b s d (inl h) ordered found_a found_b = absurd (ground arith)
    order_block-made ops [] g has o a b s d (inr h) ordered found_a found_b = absurd h.1
    order_block-made ops (i ∷ is) g has o a b s d h ordered found_a found_b =
        let first = order_one-Linked ops is i g has o in
        let g₁ = order_one ops i g in
        let o' = λ (a' b' s' d' : ℕ) (e : Earlier (next_ops ops i) is a' b').
          o a' b' s' d' (Earlier-next ops is i a' b' e) in
        elim (Earlier-rest ops is i a b h) [
          | inr later ↦
              order_block-made (next_ops ops i) is g₁ (first.nodes ∙ has) o' a b s d later ordered
                found_a found_b
          | inl (before, b_is) ↦
              (order_block-Linked (next_ops ops i) is g₁ (first.nodes ∙ has) o').kept s d
                (made_here before b_is)
        ]
      where
        made_here : elem a ops ≡ true → b ≡ i → edge (order_one ops i g) s d ≡ true
        made_here before b_is =
            let keeps : is_ordered (ir i) ≡ true = rw b_is at ordered in
            rw keeps (
              order_after-made ops i g has (λ p s' d' e. o p i s' d' (inl (e, ground arith)) keeps)
                a s d before found_a (rw b_is at found_b))

    -- Every block asks for edges in `P`.
    abbrev pub AllOrders : List (List ℕ) → Type 0
    AllOrders [] = Unit
    AllOrders (block ∷ blocks) = Orders [] block × AllOrders blocks

    pub order_blocks-Linked :
        (blocks : List (List ℕ)) (g : Ddg)
        → g.nodes ≡ nodes
        → AllOrders blocks
        → Linked P g (order_blocks ir m blocks g)
    unfolding order_blocks
    order_blocks-Linked [] g has o = Linked-refl g
    order_blocks-Linked (block ∷ blocks) g has o =
        let first = order_block-Linked [] block g has o.0 in
        Linked-trans first
          (order_blocks-Linked blocks (order_block ir m [] block g) (first.nodes ∙ has) o.1)
