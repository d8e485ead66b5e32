-- ===== src/Critical/Bound.antt =====
-- How long a critical path can be.
use mathlib.Core.List.{flatten}
use llvm_scheduling_reg_pres.Base.{
  ℕ, suc, ◌+◌, ◌*◌, ◌≤◌, ◌≡◌, sym, ◌∙◌, List, [], ◌∷◌, some, Distinct, arith, length, length-inside,
  ltb, ◌==◌, Bool-cases, inl, inr,
}
use mathlib.Core.List.{reverse-reverse}
use llvm_scheduling_reg_pres.Ir.{Ir}
use llvm_scheduling_reg_pres.Ddg.{Ddg, DdgNode}
use llvm_scheduling_reg_pres.Ddg.Edges.{IsWf}
use llvm_scheduling_reg_pres.Ddg.Build.{build_ddg, build_local_ddg}
use llvm_scheduling_reg_pres.Ddg.Build.Delays.{IsFresh, IsFresh-build_ddg, IsFresh-build_local_ddg}
use llvm_scheduling_reg_pres.Ddg.Build.Correct.{build_ddg-Represents, build_local_ddg-Represents}
use llvm_scheduling_reg_pres.Critical.{
  max_succ_cp, cp_from, cp_of, set_cp, assign_all, compute_critical_path,
}
use llvm_scheduling_reg_pres.Critical.Lengths.{cp}
use llvm_scheduling_reg_pres.Critical.Search.{search_all}

module _ (h : ℕ → DdgNode) (top : ℕ) (all : (n : ℕ) → (h n).critical_path ≤ top) where
  max_succ_cp_le : (ss : List ℕ) (m : ℕ) → m ≤ top → max_succ_cp h ss m ≤ top
  max_succ_cp_le [] m le = le
  max_succ_cp_le (s ∷ ss) m le = elim (Bool-cases (ltb m (h s).critical_path)) [
    | inl e ↦ rw e (max_succ_cp_le ss (h s).critical_path (all s))
    | inr e ↦ rw e (max_succ_cp_le ss m le)
  ]

  cp_from_top : (d : ℕ) (ss : List ℕ) → cp_from h d ss ≤ d + top
  cp_from_top d [] = omega arith
  cp_from_top d (s ∷ ss) = let m = max_succ_cp_le (s ∷ ss) 0 (omega arith) in omega (arith, m)

assign_all_le :
    (ns : List ℕ) (k : ℕ) (g : Ddg)
    → ((n : ℕ) → (g.heap n).delay ≤ 10)
    → ((n : ℕ) → cp g n ≤ 10 * k)
    → (n : ℕ) → cp (assign_all ns g) n ≤ 10 * (k + length ns)
unfolding assign_all
assign_all_le [] k g d c n = let old = c n in omega (arith, old)
assign_all_le (m ∷ ns) k g d c n =
    let v = cp_of g.heap m in
    let g' = set_cp m v g in
    let one = cp_from_top g.heap (10 * k) c (g.heap m).delay (g.heap m).successors in
    let d' : (j : ℕ) → (g'.heap j).delay ≤ 10 =
      λ j. elim (Bool-cases (m == j)) [ inl e ↦ rw e (d m) | inr e ↦ rw e (d j) ] in
    let small = d m in
    let c' : (j : ℕ) → cp g' j ≤ 10 * suc k = λ j. elim (Bool-cases (m == j)) [
      | inl e ↦ rw (cp, e) (omega (arith, one, small))
      | inr e ↦ let old = c j in rw (cp, e) (omega (arith, old))
    ] in
    let rest = assign_all_le ns (suc k) g' d' c' n in omega (arith, rest)

fresh_bound :
    (g : Ddg) (k : ℕ)
    → IsWf g
    → Distinct g.nodes
    → IsFresh k g
    → (g' : Ddg) × (compute_critical_path g ≡ some g') × ((n : ℕ) → cp g' n ≤ 10 * k)
unfolding compute_critical_path
fresh_bound g k w nodup f =
    let (ns, e, p) = search_all g w nodup in
    let short = length-inside ns g.nodes p.distinct (λ m h. sym (p.same m) ∙ h) in
    (
      assign_all ns g,
      rw e (rw reverse-reverse),
      λ n.
          let all =
            assign_all_le ns 0 g f.delay_le (λ m. let z = f.no_path m in omega (arith, z)) n in
          let few = f.few in omega (arith, all, short, few),
    )

-- For the graph of a trace and for that of a block, cycles or not, computeCriticalPath stores no length
-- above ten times the number of instructions, if no instruction stands there twice.
pub compute_critical_path-bound :
    (ir : Ir) (trace : List (List ℕ)) (block : List ℕ)
    → Distinct (flatten trace)
    → Distinct block
    → ((g : Ddg) × (compute_critical_path (build_ddg ir trace) ≡ some g)
        × ((n : ℕ) → cp g n ≤ 10 * length (flatten trace)))
      × ((g : Ddg) × (compute_critical_path (build_local_ddg ir block) ≡ some g)
          × ((n : ℕ) → cp g n ≤ 10 * length block))
compute_critical_path-bound ir trace block dt db =
    let t = build_ddg-Represents ir trace dt in
    let b = build_local_ddg-Represents ir block db in
    (
      fresh_bound (build_ddg ir trace) (length (flatten trace)) t.wf t.distinct
          (IsFresh-build_ddg ir trace),
      fresh_bound (build_local_ddg ir block) (length block) b.wf b.distinct
          (IsFresh-build_local_ddg ir block),
    )
