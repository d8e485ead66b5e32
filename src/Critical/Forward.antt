-- ===== src/Critical/Forward.antt =====
-- Graphs of code whose operands stand before their uses: the edges lead forward, so that the critical
-- path is the longest path.
use mathlib.Core.List.{flatten}
use llvm_scheduling_reg_pres.Base.{
  ℕ, ◌<◌, ◌≡◌, refl, Bool, true, not, List, some, elem, elem-select, Distinct, Before, arith, inl,
  inr, BeforeIn-flatten, Before-select,
}
use llvm_scheduling_reg_pres.Ir.{Ir, is_phi}
use llvm_scheduling_reg_pres.Ddg.{Ddg}
use llvm_scheduling_reg_pres.Ddg.Edges.{edge}
use llvm_scheduling_reg_pres.Ddg.Build.{build_ddg, build_local_ddg}
use llvm_scheduling_reg_pres.Ddg.Build.Links.{uses}
use llvm_scheduling_reg_pres.Ddg.Build.Correct.{build_ddg-Represents, build_local_ddg-Represents}
use llvm_scheduling_reg_pres.Critical.{compute_critical_path}
use llvm_scheduling_reg_pres.Critical.Lengths.{cp}
use llvm_scheduling_reg_pres.Critical.Longest.{IsLongest, compute_critical_path-IsLongest}

-- Each of these instructions stands behind those of the list whose results it uses.
abbrev pub OperandsFirst : (ℕ → Bool) → Ir → List ℕ → Type 0
OperandsFirst these ir is =
    (i j : ℕ)
    → elem i is ≡ true
    → elem j is ≡ true
    → these j ≡ true
    → uses i (ir j).operands ≡ true
    → Before is i j

-- All edges lead from an older node to a younger one.
abbrev pub IsForward : Ddg → Type 0
IsForward g = (a b : ℕ) → edge g a b ≡ true → a < b

build_ddg-IsForward :
    (ir : Ir) (trace : List (List ℕ))
    → Distinct (flatten trace)
    → OperandsFirst (λ i. not (is_phi (ir i))) ir (flatten trace)
    → IsForward (build_ddg ir trace)
build_ddg-IsForward ir trace d first a b e =
    let r = build_ddg-Represents ir trace d in
    let g = build_ddg ir trace in
    let ma = r.wf.closed_from a b e in
    let mb = r.wf.closed_to a b e in
    let i = (g.heap a).instr in
    let j = (g.heap b).instr in
    let own = λ (k : ℕ). not (is_phi (ir k)) in
    let in_a = r.of_instr a ma in
    let in_b = r.of_instr b mb in
    let sel_a = elem-select own i (flatten trace) in
    let sel_b = elem-select own j (flatten trace) in
    let own_a : own i ≡ true = ground arith in
    let own_b : own j ≡ true = ground arith in
    let there_a : elem i (flatten trace) ≡ true = ground arith in
    let there_b : elem j (flatten trace) ≡ true = ground arith in
    let before : Before (flatten trace) i j = elim ((r.edges a b ma mb).0 e) [
      | inl u ↦ first i j there_a there_b (ground arith) u.2
      | inr o ↦ BeforeIn-flatten i j trace o.2
    ] in
    r.increasing a b ma mb (Before-select own i j (flatten trace) own_a own_b before)

build_local_ddg-IsForward :
    (ir : Ir) (block : List ℕ)
    → Distinct block
    → OperandsFirst (λ _. true) ir block
    → IsForward (build_local_ddg ir block)
build_local_ddg-IsForward ir block d first a b e =
    let r = build_local_ddg-Represents ir block d in
    let g = build_local_ddg ir block in
    let ma = r.wf.closed_from a b e in
    let mb = r.wf.closed_to a b e in
    r.increasing a b ma mb (elim ((r.edges a b ma mb).0 e) [
      | inl u ↦ first (g.heap a).instr (g.heap b).instr (r.of_instr a ma) (r.of_instr b mb) refl u
      | inr o ↦ o.2
    ])

-- The edges lead forward, and computeCriticalPath ends with the lengths of the longest paths.
abbrev pub HasLongest : Ddg → Type 0
HasLongest g =
    IsForward g
    × ((g' : Ddg) × (compute_critical_path g ≡ some g')
        × ((n : ℕ) → elem n g.nodes ≡ true → IsLongest g n (cp g' n)))

-- Let no instruction stand twice in a trace, and let each instruction of it that is no PHI stand behind
-- those of the trace whose results it uses; let the same hold of a block, its PHIs included. Then all
-- edges of the graph of the trace, and of the graph of the block, lead from older to younger nodes, so
-- that there is no cycle; and on both graphs computeCriticalPath ends and stores in each node the length
-- of the longest path from there, counted in delays.
pub built-HasLongest :
    (ir : Ir) (trace : List (List ℕ)) (block : List ℕ)
    → Distinct (flatten trace)
    → OperandsFirst (λ i. not (is_phi (ir i))) ir (flatten trace)
    → Distinct block
    → OperandsFirst (λ _. true) ir block
    → HasLongest (build_ddg ir trace) × HasLongest (build_local_ddg ir block)
built-HasLongest ir trace block dt ft db fb =
    let t = build_ddg-Represents ir trace dt in
    let b = build_local_ddg-Represents ir block db in
    let forward_t = build_ddg-IsForward ir trace dt ft in
    let forward_b = build_local_ddg-IsForward ir block db fb in
    (
      (forward_t, compute_critical_path-IsLongest (build_ddg ir trace) t.wf t.distinct forward_t),
      (
        forward_b,
        compute_critical_path-IsLongest (build_local_ddg ir block) b.wf b.distinct forward_b,
      ),
    )
