-- ===== src/Critical/Lengths.antt =====
-- The lengths that computeCriticalPath stores.
use llvm_scheduling_reg_pres.Base.{
  ℕ, ◌+◌, ◌≤◌, ◌≡◌, refl, sym, ap, subst, ◌∙◌, true, false, List, [], ◌∷◌, ◌++◌, ltb, ◌==◌,
  if◌then◌else◌, elem, Distinct, Before, Before-elem, Before-elem_right, Before-append_cases,
  Distinct-right, Distinct-apart, elem-append, append_assoc, arith, Bool-cases, inl, inr, ==_iff,
  ◌⊎◌,
}
use mathlib.Core.Bool.{false≢true}
use llvm_scheduling_reg_pres.Ddg.{Ddg, DdgNode}
use llvm_scheduling_reg_pres.Ddg.Edges.{IsWf, succs, preds, edge}
use llvm_scheduling_reg_pres.Critical.{max_succ_cp, cp_from, cp_of, set_cp, assign_all}
use llvm_scheduling_reg_pres.Critical.Search.{SinksFirst}

abbrev pub cp : Ddg → ℕ → ℕ
cp g n = (g.heap n).critical_path

-- `g'` is `g` up to the critical path lengths.
pub record SameShape (g g' : Ddg) : Type 0 where
  pub nodes : g'.nodes ≡ g.nodes
  pub instr : (n : ℕ) → (g'.heap n).instr ≡ (g.heap n).instr
  pub delay : (n : ℕ) → (g'.heap n).delay ≡ (g.heap n).delay
  pub pred_count : (n : ℕ) → (g'.heap n).pred_count ≡ (g.heap n).pred_count
  pub successors : (n : ℕ) → succs g' n ≡ succs g n
  pub predecessors : (n : ℕ) → preds g' n ≡ preds g n

pub SameShape-IsWf : (g g' : Ddg) → SameShape g g' → IsWf g → IsWf g'
SameShape-IsWf g g' s w = record {
  mirrored = λ a b. rw (s.predecessors b, s.successors a) (w.mirrored a b);
  distinct_succs = λ a. rw (s.successors a) (w.distinct_succs a);
  distinct_preds = λ a. rw (s.predecessors a) (w.distinct_preds a);
  counted = λ a. rw (s.predecessors a, s.pred_count a) (w.counted a);
  closed_from = λ a b e. rw (s.nodes) (w.closed_from a b (rw (s.successors a) at e));
  closed_to = λ a b e. rw (s.nodes) (w.closed_to a b (rw (s.successors a) at e));
}

SameShape-set_cp : (n v : ℕ) (g : Ddg) → SameShape g (set_cp n v g)
SameShape-set_cp n v g = record {
  nodes = refl;
  instr = λ k. ground arith;
  delay = λ k. ground arith;
  pred_count = λ k. ground arith;
  successors = λ k. ground arith;
  predecessors = λ k. ground arith;
}

pub SameShape-assign_all : (ns : List ℕ) (g : Ddg) → SameShape g (assign_all ns g)
unfolding assign_all
SameShape-assign_all [] g = record {
  nodes = refl;
  instr = λ k. refl;
  delay = λ k. refl;
  pred_count = λ k. refl;
  successors = λ k. refl;
  predecessors = λ k. refl;
}
SameShape-assign_all (n ∷ ns) g =
    let one = SameShape-set_cp n (cp_of g.heap n) g in
    let rest = SameShape-assign_all ns (set_cp n (cp_of g.heap n) g) in
    record {
      nodes = rest.nodes ∙ one.nodes;
      instr = λ k. rest.instr k ∙ one.instr k;
      delay = λ k. rest.delay k ∙ one.delay k;
      pred_count = λ k. rest.pred_count k ∙ one.pred_count k;
      successors = λ k. rest.successors k ∙ one.successors k;
      predecessors = λ k. rest.predecessors k ∙ one.predecessors k;
    }

assign_all-other :
    (ns : List ℕ) (g : Ddg) (k : ℕ) → elem k ns ≡ false → cp (assign_all ns g) k ≡ cp g k
unfolding assign_all
assign_all-other [] g k h = refl
assign_all-other (n ∷ ns) g k h =
    ground (arith, assign_all-other ns (set_cp n (cp_of g.heap n) g) k)

max_succ_cp_congr :
    (h h' : ℕ → DdgNode) (ss : List ℕ) (m : ℕ)
    → ((s : ℕ) → elem s ss ≡ true → (h s).critical_path ≡ (h' s).critical_path)
    → max_succ_cp h ss m ≡ max_succ_cp h' ss m
max_succ_cp_congr h h' [] m e = refl
max_succ_cp_congr h h' (s ∷ ss) m e =
    rw (e s (ground arith)) (max_succ_cp_congr h h' ss _ (λ t mem. e t (ground arith)))

cp_from_congr :
    (h h' : ℕ → DdgNode) (d : ℕ) (ss : List ℕ)
    → ((s : ℕ) → elem s ss ≡ true → (h s).critical_path ≡ (h' s).critical_path)
    → cp_from h d ss ≡ cp_from h' d ss
cp_from_congr h h' d [] e = refl
cp_from_congr h h' d (s ∷ ss) e = ap (λ m. d + m) (max_succ_cp_congr h h' (s ∷ ss) 0 e)

pub le-max_succ_cp : (h : ℕ → DdgNode) (ss : List ℕ) (m : ℕ) → m ≤ max_succ_cp h ss m
le-max_succ_cp h [] m = omega arith
le-max_succ_cp h (s ∷ ss) m =
    ground (arith, le-max_succ_cp h ss m, le-max_succ_cp h ss (h s).critical_path)

pub elem-le-max_succ_cp :
    (h : ℕ → DdgNode) (ss : List ℕ) (m s : ℕ)
    → elem s ss ≡ true
    → (h s).critical_path ≤ max_succ_cp h ss m
elem-le-max_succ_cp h [] m s e = absurd (ground arith)
elem-le-max_succ_cp h (t ∷ ss) m s e =
    let m' = if ltb m (h t).critical_path then (h t).critical_path else m in
    let cp_t : (h t).critical_path ≤ m' = ground arith in
    elim (Bool-cases (s == t)) [
      | inl same ↦ rw ((==_iff s t).0 same) (omega (arith, cp_t, le-max_succ_cp h ss m'))
      | inr other ↦ elem-le-max_succ_cp h ss m' s (ground arith)
    ]

pub max_succ_cp_attained :
    (h : ℕ → DdgNode) (ss : List ℕ) (m : ℕ)
    → (max_succ_cp h ss m ≡ m)
      ⊎ ((s : ℕ) × (elem s ss ≡ true) × (max_succ_cp h ss m ≡ (h s).critical_path))
max_succ_cp_attained h [] m = inl refl
max_succ_cp_attained h (s ∷ ss) m =
    let m' = if ltb m (h s).critical_path then (h s).critical_path else m in
    elim (max_succ_cp_attained h ss m') [
      | inr (t, e, is_t) ↦ inr (t, ground arith, is_t)
      | inl is_m' ↦ elim (Bool-cases (ltb m (h s).critical_path)) [
        | inl larger ↦ inr (s, ground arith, is_m' ∙ rw larger)
        | inr smaller ↦ inl (is_m' ∙ rw smaller)
      ]
    ]

Before-split :
    (b n : ℕ) (done rest : List ℕ)
    → Distinct (done ++ n ∷ rest)
    → Before (done ++ n ∷ rest) b n
    → elem b done ≡ true
Before-split b n done rest d h =
    let last = Distinct-right done (n ∷ rest) d in
    elim (Before-append_cases b n done (n ∷ rest) h) [
      | inl p ↦ Before-elem b n done p
      | inr (inl p) ↦ p.0
      | inr (inr (inl p)) ↦ absurd (false≢true (sym last.0 ∙ p.1))
      | inr (inr (inr p)) ↦ absurd (false≢true (sym last.0 ∙ Before-elem_right b n rest p))
    ]

module _ {ℓ} (g : Ddg) (P : ℕ → Type ℓ)
    (step : (n : ℕ) → ((b : ℕ) → edge g n b ≡ true → P b) → P n) where
  -- Induction along an order in which each node stands behind its successors.
  pub postorder_ind :
      (done ns : List ℕ)
      → Distinct (done ++ ns)
      → SinksFirst g (done ++ ns)
      → ((k : ℕ) → elem k done ≡ true → P k)
      → (k : ℕ) → elem k ns ≡ true
      → P k
  postorder_ind done [] d s p k m = absurd (ground arith)
  postorder_ind done (n ∷ ns) d s p k m = elim (Bool-cases (k == n)) [
    | inl same ↦ subst P (sym ((==_iff k n).0 same)) here
    | inr other ↦
        postorder_ind (done ++ n ∷ []) ns (rw append_assoc d) (rw append_assoc s) longer k
          (ground arith)
  ]
    where
      here : P n
      here = step n (λ b e.
          p b (Before-split b n done ns d (s n b e (ground (arith, elem-append n done (n ∷ ns))))))

      longer : (j : ℕ) → elem j (done ++ n ∷ []) ≡ true → P j
      longer j e = elim (Bool-cases (j == n)) [
        | inl same ↦ subst P (sym ((==_iff j n).0 same)) here
        | inr other ↦ p j (ground (arith, elem-append j done (n ∷ [])))
      ]

pub SinksFirst-shape :
    (g g' : Ddg) (ns : List ℕ) → SameShape g g' → SinksFirst g ns → SinksFirst g' ns
SinksFirst-shape g g' ns s f a b e m = f a b (rw (s.successors a) at e) m

pub assign_all-cp_of :
    (done ns : List ℕ) (g : Ddg)
    → Distinct (done ++ ns)
    → SinksFirst g (done ++ ns)
    → (n : ℕ) → elem n ns ≡ true
    → cp (assign_all ns g) n ≡ cp_of (assign_all ns g).heap n
unfolding assign_all
assign_all-cp_of done [] g d f k m = absurd (ground arith)
assign_all-cp_of done (n ∷ ns) g d f k m = elim (Bool-cases (k == n)) [
  | inl same ↦ rw ((==_iff k n).0 same) head_cp
  | inr other ↦
      assign_all-cp_of (done ++ n ∷ []) ns g₁ (rw append_assoc d)
        (rw append_assoc (SinksFirst-shape g g₁ (done ++ n ∷ ns) (SameShape-set_cp n v g) f)) k
        (ground arith)
]
  where
    v : ℕ
    v = cp_of g.heap n

    g₁ : Ddg
    g₁ = set_cp n v g

    G : Ddg
    G = assign_all (n ∷ ns) g

    shape : SameShape g G
    shape = SameShape-assign_all (n ∷ ns) g

    n_last : elem n ns ≡ false
    n_last = (Distinct-right done (n ∷ ns) d).0

    untouched : (s : ℕ) → elem s (succs g n) ≡ true → cp G s ≡ cp g s
    untouched s e = assign_all-other (n ∷ ns) g s (
        absent (Before-split s n done ns d (f n s e (ground (arith, elem-append n done (n ∷ ns))))))
      where
        absent : elem s done ≡ true → elem s (n ∷ ns) ≡ false
        absent h = elim (Bool-cases (elem s (n ∷ ns))) [
          | inl e' ↦ absurd (false≢true (sym (Distinct-apart s done (n ∷ ns) d e') ∙ h))
          | inr e' ↦ e'
        ]

    set_v : cp g₁ n ≡ v
    set_v = ground arith

    head_cp : cp G n ≡ cp_of G.heap n
    head_cp =
        assign_all-other ns g₁ n n_last
        ∙ set_v
        ∙ sym (cp_from_congr G.heap g.heap (g.heap n).delay (succs g n) untouched)
        ∙ rw (shape.delay n, shape.successors n)
