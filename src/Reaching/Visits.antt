-- ===== src/Reaching/Visits.antt =====
-- The processing order of computeReaching and the breadth-first order of identifyTraces.
use llvm_scheduling_reg_pres.Base.{
  subst, Distinct, ℕ, zero, suc, ◌≡◌, ◌↔◌, refl, sym, ap, ◌∙◌, true, List, [], ◌∷◌, none, some,
  arith, elem, length, get_elem?, get_elem?-elem, Option-cases, inl, inr,
}
use mathlib.Core.Option.{map}
use llvm_scheduling_reg_pres.Ir.Function.{Function, blocks_of}
use llvm_scheduling_reg_pres.Trace.{
  Profile, BfsIndex, note_block, note_blocks, bfs_from, bfs, entry_only,
}
use llvm_scheduling_reg_pres.Trace.Paths.{IsCfg}
use llvm_scheduling_reg_pres.Trace.Reach.{
  IsIndex, Reachable, along, Extends-one, Extends-all, IsIndex-entry_only, bfs-Reachable,
}
use llvm_scheduling_reg_pres.Reaching.{visit, visit_succs, visit_from, visit_order}

-- The control flow graph of a function, without a profile.
abbrev pub cfg_of : Function → Profile
cfg_of f = record {
  entry = f.entry;
  successors = f.successors;
  predecessors = f.predecessors;
  probability = λ a b. 0;
  frequency = λ b. 0;
  percent = λ n. n;
}

module _ (p : Profile) where
  visit-note_block :
      (bb : ℕ) (b : BfsIndex) → IsIndex p b → (note_block bb b).order ≡ visit bb b.order
  visit-note_block bb b x = elim (Option-cases (b.position bb)) [
    | inl e ↦ rw (note_block, e, x.keyed bb e) refl
    | inr (k, e) ↦
        let there = get_elem?-elem b.order k bb (x.numbered bb k e) in
        rw (note_block, e, there) refl
  ]

  visit_succs-note_blocks :
      (bbs : List ℕ) (b : BfsIndex)
      → ((m : ℕ) → elem m bbs ≡ true → Reachable p m)
      → IsIndex p b
      → (note_blocks bbs b).order ≡ visit_succs bbs b.order
  unfolding note_blocks visit_succs
  visit_succs-note_blocks [] b r x = refl
  visit_succs-note_blocks (bb ∷ bbs) b r x =
      let one = Extends-one p bb b (r bb (ground arith)) x in
      visit_succs-note_blocks bbs (note_block bb b) (λ m h. r m (ground arith)) one.index
      ∙ ap (λ l. visit_succs bbs l) (visit-note_block bb b x)

  visit_from-bfs_from :
      (fuel i : ℕ) (b : BfsIndex)
      → IsIndex p b
      → visit_from p.successors fuel i b.order
        ≡ map (λ (e : BfsIndex). e.order) (bfs_from p fuel i b)
  unfolding visit_from bfs_from
  visit_from-bfs_from zero i b x = elim (Option-cases (get_elem? b.order i)) [
    | inl e ↦ rw (visit_from, bfs_from, e) refl
    | inr (bb, e) ↦ rw (visit_from, bfs_from, e) refl
  ]
  visit_from-bfs_from (suc fuel) i b x = elim (Option-cases (get_elem? b.order i)) [
    | inl e ↦ rw (visit_from, bfs_from, e) refl
    | inr (bb, e) ↦
        let here = x.reached bb (get_elem?-elem b.order i bb e) in
        let next = λ (m : ℕ) (h : elem m (p.successors bb) ≡ true). along bb m h here in
        let rest =
          visit_from-bfs_from fuel (suc i) (note_blocks (p.successors bb) b)
            (Extends-all p (p.successors bb) b next x).index in
        let same = visit_succs-note_blocks (p.successors bb) b next x in
        rw (visit_from, bfs_from, e)
          (ap (λ l. visit_from p.successors fuel (suc i) l) (sym same) ∙ rest)
  ]

-- The order that computeReaching makes with std::find is the bfsOrder of identifyTraces.
pub visit_order-bfs :
    (f : Function)
    → IsCfg (cfg_of f) (blocks_of f)
    → visit_order f ≡ map (λ (e : BfsIndex). e.order) (bfs (cfg_of f) (length (blocks_of f)))
unfolding visit_order bfs
visit_order-bfs f cfg =
    visit_from-bfs_from (cfg_of f) (length (blocks_of f)) 0 (entry_only (cfg_of f))
      (IsIndex-entry_only (cfg_of f) (blocks_of f) cfg)

-- The search ends, with the reachable blocks.
pub visit_order-Reachable :
    (f : Function)
    → IsCfg (cfg_of f) (blocks_of f)
    → (order : List ℕ) × (visit_order f ≡ some order)
      × ((m : ℕ) → (elem m order ≡ true) ↔ Reachable (cfg_of f) m)
visit_order-Reachable f cfg =
    let (end, returns, index, all) = bfs-Reachable (cfg_of f) (blocks_of f) cfg in
    (end.order, visit_order-bfs f cfg ∙ ap (λ r. map (λ (e : BfsIndex). e.order) r) returns, all)

-- It visits no block twice.
pub visit_order-Distinct :
    (f : Function)
    → IsCfg (cfg_of f) (blocks_of f)
    → (order : List ℕ) → visit_order f ≡ some order
    → Distinct order
visit_order-Distinct f cfg order e =
    let (end, returns, index, all) = bfs-Reachable (cfg_of f) (blocks_of f) cfg in
    let found = visit_order-bfs f cfg ∙ ap (λ r. map (λ (e : BfsIndex). e.order) r) returns in
    let same : end.order ≡ order = ap (λ o. elim o [ none ↦ order | some x ↦ x ]) (sym found ∙ e) in
    subst (λ l. Distinct l) same index.distinct
