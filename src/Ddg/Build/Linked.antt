-- ===== src/Ddg/Build/Linked.antt =====
-- Graphs that grow by edges of a given kind.
use llvm_scheduling_reg_pres.Base.{
  ℕ, ◌≡◌, refl, ◌∙◌, true, ◌&&◌, ◌==◌, elem, arith, Bool-cases, inl, inr, ◌⊎◌, ==_iff,
}
use llvm_scheduling_reg_pres.Ddg.{Ddg, add_edge}
use llvm_scheduling_reg_pres.Ddg.Edges.{
  IsWf, edge, edge-add_edge, add_edge-IsWf, nodes-add_edge, instr-add_edge,
}

-- `h` is `g` with further edges, each as `P` says, between nodes.
pub record Linked (P : ℕ → ℕ → Type 0) (g h : Ddg) : Type 0 where
  pub nodes : h.nodes ≡ g.nodes
  pub instr : (n : ℕ) → (h.heap n).instr ≡ (g.heap n).instr
  pub wf : IsWf g → IsWf h
  pub kept : (a b : ℕ) → edge g a b ≡ true → edge h a b ≡ true
  pub added : (a b : ℕ) → edge h a b ≡ true → (edge g a b ≡ true) ⊎ P a b

module _ {P : ℕ → ℕ → Type 0} where
  pub Linked-refl : (g : Ddg) → Linked P g g
  Linked-refl g = record {
    nodes = refl;
    instr = λ n. refl;
    wf = λ w. w;
    kept = λ a b e. e;
    added = λ a b e. inl e;
  }

  pub Linked-trans : {g h k : Ddg} → Linked P g h → Linked P h k → Linked P g k
  Linked-trans p q = record {
    nodes = q.nodes ∙ p.nodes;
    instr = λ n. q.instr n ∙ p.instr n;
    wf = λ w. q.wf (p.wf w);
    kept = λ a b e. q.kept a b (p.kept a b e);
    added = λ a b e. elim (q.added a b e) [ inl e' ↦ p.added a b e' | inr r ↦ inr r ];
  }

  pub Linked-add_edge :
      (s d : ℕ) (g : Ddg)
      → P s d
      → elem s g.nodes ≡ true
      → elem d g.nodes ≡ true
      → Linked P g (add_edge s d g)
  Linked-add_edge s d g p ms md = record {
    nodes = nodes-add_edge s d g;
    instr = instr-add_edge s d g;
    wf = add_edge-IsWf s d g ms md;
    kept = λ a b e. ground (arith, edge-add_edge s d g a b);
    added = λ a b e. elim (Bool-cases (edge g a b)) [
      | inl old ↦ inl old
      | inr new ↦
          let both : ((s == a) && (d == b)) ≡ true = ground (arith, edge-add_edge s d g a b) in
          let s_is : s ≡ a = (==_iff s a).0 (ground arith) in
          let d_is : d ≡ b = (==_iff d b).0 (ground arith) in inr (rw (← s_is, ← d_is) p)
    ];
  }

pub edge-add_edge_self : (s d : ℕ) (g : Ddg) → edge (add_edge s d g) s d ≡ true
edge-add_edge_self s d g = ground (arith, edge-add_edge s d g s d)
