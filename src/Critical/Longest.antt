-- ===== src/Critical/Longest.antt =====
-- computeCriticalPath stores the length of the longest path.
use llvm_scheduling_reg_pres.Base.{
  ℕ, ◌+◌, ◌≤◌, ◌<◌, ◌≡◌, refl, sym, ap, subst, ◌∙◌, true, List, [], ◌∷◌, some, elem, Distinct,
  arith, ◌⊎◌, inl, inr,
}
use mathlib.Core.List.{reverse-reverse}
use llvm_scheduling_reg_pres.Ddg.{Ddg, DdgNode}
use llvm_scheduling_reg_pres.Ddg.Edges.{IsWf, succs, edge}
use llvm_scheduling_reg_pres.Critical.{cp_from, cp_of, assign_all, compute_critical_path}
use llvm_scheduling_reg_pres.Critical.Search.{IsPostorder, search_all}
use llvm_scheduling_reg_pres.Critical.Lengths.{
  cp, SameShape, SameShape-assign_all, assign_all-cp_of, postorder_ind, elem-le-max_succ_cp,
  max_succ_cp_attained,
}

-- A path that starts at a node, with the sum of the delays on it.
pub data Walk (g : Ddg) : ℕ → ℕ → Type 0 where
  stop : (n : ℕ) → Walk g n (g.heap n).delay
  step : (n m d : ℕ) → edge g n m ≡ true → Walk g m d → Walk g n ((g.heap n).delay + d)

-- `d` is the length of the longest path from `n`.
pub record IsLongest (g : Ddg) (n d : ℕ) : Type 0 where
  pub attained : Walk g n d
  pub bound : (e : ℕ) → Walk g n e → e ≤ d

module _ (h : ℕ → DdgNode) (d : ℕ) where
  cp_from-bound :
      (ss : List ℕ) (s : ℕ) → elem s ss ≡ true → d + (h s).critical_path ≤ cp_from h d ss
  cp_from-bound [] s e = absurd (ground arith)
  cp_from-bound (t ∷ ss) s e = omega (arith, elem-le-max_succ_cp h (t ∷ ss) 0 s e)

  cp_from_le : (ss : List ℕ) → d ≤ cp_from h d ss
  cp_from_le [] = omega arith
  cp_from_le (t ∷ ss) = omega arith

  cp_from_attained :
      (ss : List ℕ)
      → (cp_from h d ss ≡ d)
        ⊎ ((s : ℕ) × (elem s ss ≡ true) × (cp_from h d ss ≡ d + (h s).critical_path))
  cp_from_attained [] = inl refl
  cp_from_attained (t ∷ ss) = elim (max_succ_cp_attained h (t ∷ ss) 0) [
    | inl e ↦ inl (omega (arith, e))
    | inr (s, m, e) ↦ inr (s, m, ap (λ k. d + k) e)
  ]

-- On a well-formed graph that lists no node twice computeCriticalPath ends within its fuel, cycles or
-- not, and changes nothing but the critical path lengths.
pub compute_critical_path-SameShape :
    (g : Ddg)
    → IsWf g
    → Distinct g.nodes
    → (g' : Ddg) × (compute_critical_path g ≡ some g') × SameShape g g'
unfolding compute_critical_path
compute_critical_path-SameShape g w nodup =
    let (ns, e, p) = search_all g w nodup in
    (assign_all ns g, rw e (rw reverse-reverse), SameShape-assign_all ns g)

-- A graph `G` of the shape of `g` whose stored numbers fit together.
module _ (g G : Ddg) (w : IsWf g)
    (fits : (n : ℕ)
      → elem n g.nodes ≡ true
      → cp G n ≡ cp_from G.heap (g.heap n).delay (succs g n)) where
  Walk-le : {n e : ℕ} → Walk g n e → elem n g.nodes ≡ true → e ≤ cp G n
  Walk-le (stop n) m = omega (arith, fits n m, cp_from_le G.heap (g.heap n).delay (succs g n))
  Walk-le (step n k d e walk) m = omega (
    arith,
    fits n m,
    Walk-le walk (w.closed_to n k e),
    cp_from-bound G.heap (g.heap n).delay (succs g n) k e,
  )

  Walk-step :
      (n : ℕ)
      → ((b : ℕ) → edge g n b ≡ true → elem b g.nodes ≡ true → Walk g b (cp G b))
      → elem n g.nodes ≡ true
      → Walk g n (cp G n)
  Walk-step n later m = elim (cp_from_attained G.heap (g.heap n).delay (succs g n)) [
    | inl e ↦ subst (Walk g n) (sym (fits n m ∙ e)) (stop n)
    | inr (s, e, is_s) ↦
        subst (Walk g n) (sym (fits n m ∙ is_s))
          (step n s (cp G s) e (later s e (w.closed_to n s e)))
  ]

postorder-IsLongest :
    (g : Ddg) (ns : List ℕ)
    → IsWf g
    → ((a b : ℕ) → edge g a b ≡ true → a < b)
    → IsPostorder g ns
    → (n : ℕ) → elem n g.nodes ≡ true
    → IsLongest g n (cp (assign_all ns g) n)
postorder-IsLongest g ns w forward p n m =
    let G = assign_all ns g in
    let shape = SameShape-assign_all ns g in
    let fits = λ (k : ℕ) (e : elem k g.nodes ≡ true).
      assign_all-cp_of [] ns g p.distinct (p.sinks_first forward) k (p.same k ∙ e)
      ∙ fits_shape g G k shape in
    record {
      attained =
          postorder_ind g (λ k. elem k g.nodes ≡ true → Walk g k (cp G k)) (Walk-step g G w fits) []
            ns p.distinct (p.sinks_first forward) (λ k e. absurd (ground arith)) n (p.same n ∙ m) m;
      bound = λ e walk. Walk-le g G w fits walk m;
    }
  where
    fits_shape :
        (g₀ G : Ddg) (k : ℕ)
        → SameShape g₀ G
        → cp_of G.heap k ≡ cp_from G.heap (g₀.heap k).delay (succs g₀ k)
    fits_shape g₀ G k s = rw (s.delay k, s.successors k)

-- On a well-formed graph that lists no node twice and whose edges all lead from an older node to a
-- younger one, computeCriticalPath ends within its fuel, and the number that it stores in a node is the
-- length of the longest path from there, counted in delays: some path is that long, none is longer.
pub compute_critical_path-IsLongest :
    (g : Ddg)
    → IsWf g
    → Distinct g.nodes
    → ((a b : ℕ) → edge g a b ≡ true → a < b)
    → (g' : Ddg) × (compute_critical_path g ≡ some g')
      × ((n : ℕ) → elem n g.nodes ≡ true → IsLongest g n (cp g' n))
unfolding compute_critical_path
compute_critical_path-IsLongest g w nodup forward =
    let (ns, e, p) = search_all g w nodup in
    (assign_all ns g, rw e (rw reverse-reverse), postorder-IsLongest g ns w forward p)
