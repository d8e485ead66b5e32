-- ===== src/Dominators/Immediate.antt =====
-- The immediate dominators that computeDominators picks.
use llvm_scheduling_reg_pres.Base.{
  ℕ, zero, suc, ◌+◌, ◌<◌, ◌≡◌, ◌≢◌, refl, sym, ap, ◌∙◌, true, false, not, ◌&&◌, List, [], ◌∷◌, none,
  some, elem, arith, get_elem?, if◌then◌else◌, ◌==◌, ==_iff, ==_refl, Bool-cases, Option-cases, inl,
  inr, update, index_of-elem,
}
use llvm_scheduling_reg_pres.Ir.Function.{Function}
use llvm_scheduling_reg_pres.Dataflow.Fill.{fill_at}
use llvm_scheduling_reg_pres.Trace.Reach.{Reachable}
use llvm_scheduling_reg_pres.Reaching.Visits.{cfg_of}
use llvm_scheduling_reg_pres.Dominators.{position}
use llvm_scheduling_reg_pres.Dominators.Step.{Avoids, ==_ne, idx, same_position}
use llvm_scheduling_reg_pres.Dominators.Correct.{Computed}
use llvm_scheduling_reg_pres.Ir.BitVec.{BitVec, test, reset}
use llvm_scheduling_reg_pres.Dominators.{set_bits_from, is_dominated_by_another, imm_dom}

test-reset : (xs : BitVec) (i j : ℕ) → test (reset xs i) j ≡ (not (i == j) && test xs j)
test-reset [] i j = ground arith
test-reset (x ∷ xs) zero zero = ground arith
test-reset (x ∷ xs) zero (suc j) = ground arith
test-reset (x ∷ xs) (suc i) zero = ground arith
test-reset (x ∷ xs) (suc i) (suc j) = ground (arith, test-reset xs i j)

set_bits_from_below : (i j : ℕ) (bits : BitVec) → j < i → elem j (set_bits_from i bits) ≡ false
set_bits_from_below i j [] h = refl
set_bits_from_below i j (true ∷ bits) h =
    let rest = set_bits_from_below (suc i) j bits (omega (arith, h)) in ground arith
set_bits_from_below i j (false ∷ bits) h = set_bits_from_below (suc i) j bits (omega (arith, h))

elem-set_bits_from : (i j : ℕ) (bits : BitVec) → elem (i + j) (set_bits_from i bits) ≡ test bits j
elem-set_bits_from i j [] = refl
elem-set_bits_from i zero (true ∷ bits) = ground arith
elem-set_bits_from i zero (false ∷ bits) = set_bits_from_below (suc i) (i + 0) bits (omega arith)
elem-set_bits_from i (suc j) (bit ∷ bits) =
    let shift : suc i + j ≡ i + suc j = omega arith in
    let rest =
      ap (λ k. elem k (set_bits_from (suc i) bits)) (sym shift)
      ∙ elem-set_bits_from (suc i) j bits in
    elim (Bool-cases bit) [
      | inl e ↦ rw e (let ne : (i + suc j == i) ≡ false = ground arith in rw ne rest)
      | inr e ↦ rw e rest
    ]

module _ (order : List ℕ) (dom : ℕ → BitVec) where
  later_false :
      (d k : ℕ) (ds : List ℕ)
      → is_dominated_by_another order dom d (k ∷ ds) ≡ false
      → is_dominated_by_another order dom d ds ≡ false
  later_false d k ds h = elim (Option-cases (get_elem? order k)) [
    | inl e ↦ rw (is_dominated_by_another, e) at h
    | inr (b, e) ↦ elim (Bool-cases (not (k == d) && test (dom b) d)) [
      | inl y ↦ absurd (let now = (rw (is_dominated_by_another, e, y) at h) in cc)
      | inr n ↦ rw (is_dominated_by_another, e, n) at h
    ]
  ]

  -- What the loop over d2 lets pass.
  not_dominated :
      (d d2 b2 : ℕ) (ds : List ℕ)
      → is_dominated_by_another order dom d ds ≡ false
      → elem d2 ds ≡ true
      → get_elem? order d2 ≡ some b2
      → d2 ≢ d
      → test (dom b2) d ≡ false
  not_dominated d d2 b2 [] h m at ne = absurd (ground arith)
  not_dominated d d2 b2 (k ∷ ds) h m at ne = elim (Bool-cases (d2 == k)) [
    | inl e ↦
        let here : get_elem? order k ≡ some b2 =
          ap (λ j. get_elem? order j) (sym ((==_iff d2 k).0 e)) ∙ at in
        let other : (k == d) ≡ false = elim (Bool-cases (k == d)) [
          | inl s ↦ absurd (ne ((==_iff d2 k).0 e ∙ (==_iff k d).0 s))
          | inr s ↦ s
        ] in
        elim (Bool-cases (test (dom b2) d)) [
          | inl t ↦ absurd (let now = (rw (is_dominated_by_another, here, other, t) at h) in cc)
          | inr t ↦ t
        ]
    | inr e ↦ not_dominated d d2 b2 ds (later_false d k ds h) (ground arith) at ne
  ]

  -- What the loop over d picks.
  imm_dom_picks :
      (strict ds : List ℕ) (b : ℕ)
      → imm_dom order dom strict ds ≡ some b
      → (d : ℕ) × (elem d ds ≡ true)
        × (get_elem? order d ≡ some b)
        × (is_dominated_by_another order dom d strict ≡ false)
  imm_dom_picks strict [] b h = absurd (ground arith)
  imm_dom_picks strict (d ∷ ds) b h =
      elim (Bool-cases (is_dominated_by_another order dom d strict)) [
        | inl e ↦
            let (k, m, at, free) = imm_dom_picks strict ds b (rw (imm_dom, e) at h) in
            (k, ground arith, at, free)
        | inr e ↦ (d, ground arith, rw (imm_dom, e) at h, e)
      ]

-- The positions of the strict dominators.
pub elem-strict :
    (v : BitVec) (i k : ℕ) → elem k (set_bits_from 0 (reset v i)) ≡ (not (i == k) && test v k)
elem-strict v i k =
    ap (λ j. elem j (set_bits_from 0 (reset v i))) (omega arith)
    ∙ elem-set_bits_from 0 k (reset v i)
    ∙ test-reset v i k

module _ (f : Function) (p : Computed f) where
  open p use {rest, distinct, visits, info, idoms_are, exact}

  abbrev pub order : List ℕ
  order = f.entry ∷ rest

  -- The strict dominators of a block, by position.
  abbrev pub strict : ℕ → List ℕ
  strict b = set_bits_from 0 (reset (info.dom b) (position (idx f rest distinct) b))

  pub idom_at :
      (b : ℕ)
      → info.idom b ≡ (
          if elem b rest
          then imm_dom order info.dom (strict b) (strict b)
          else update (λ _. none) f.entry none b)
  idom_at b =
      ap (λ m. m b) idoms_are
      ∙ fill_at (λ k. imm_dom order info.dom (strict k) (strict k)) rest
          (update (λ _. none) f.entry none) b

  pub idom_entry : info.idom f.entry ≡ none
  idom_entry = idom_at f.entry ∙ rw (distinct.0) (rw (==_refl f.entry) refl)

  module _ (b : ℕ) (r : Reachable (cfg_of f) b) where
    -- A block that dominates another one has a bit there.
    pub strict_dominator :
        (c j : ℕ)
        → c ≢ b
        → (Avoids f c b → ⊥)
        → get_elem? order j ≡ some c
        → elem j (strict b) ≡ true
    strict_dominator c j ne dominates at =
        let bit : test (info.dom b) j ≡ true = elim (Bool-cases (test (info.dom b) j)) [
          | inl t ↦ t
          | inr t ↦ absurd (dominates ((exact b j c r at).0 t))
        ] in
        let far = same_position f rest distinct j b c ((visits b).1 r) at in
        let no = ==_ne b c (λ e. ne (sym e)) in
        elem-strict (info.dom b) (position (idx f rest distinct) b) j ∙ ground arith

    module _ (d : ℕ) (found : info.idom b ≡ some d) where
      idom_picked : imm_dom order info.dom (strict b) (strict b) ≡ some d
      idom_picked =
          let ne_entry : (b == f.entry) ≡ false = elim (Bool-cases (b == f.entry)) [
            | inl e ↦ absurd (
                let at = ap info.idom ((==_iff b f.entry).0 e) in
                let none_there = idom_entry in ground arith)
            | inr e ↦ e
          ] in
          let in_order = (visits b).1 r in
          let later : elem b rest ≡ true = ground arith in sym (idom_at b ∙ rw later refl) ∙ found

      pub idom_is_strict : (d ≢ b) × (Avoids f d b → ⊥)
      idom_is_strict =
          let (k, m, at, free) = imm_dom_picks order info.dom (strict b) (strict b) d idom_picked in
          let bit = elem-strict (info.dom b) (position (idx f rest distinct) b) k in
          let apart = same_position f rest distinct k b d ((visits b).1 r) at in
          (
            λ e. let yes = (==_iff b d).1 (sym e) in absurd (ground arith),
            λ a. let clear = (exact b k d r at).1 a in absurd (ground arith),
          )

      pub idom_is_closest :
          (c : ℕ) → Reachable (cfg_of f) c → c ≢ b → (Avoids f c b → ⊥) → c ≢ d → Avoids f d c
      idom_is_closest c rc ne dominates other =
          let (k, m, at, free) = imm_dom_picks order info.dom (strict b) (strict b) d idom_picked in
          let (j, at_c) = index_of-elem order c ((visits c).1 rc) in
          let different = λ (e : j ≡ k).
            (let same : some c ≡ some d = sym at_c ∙ ap (λ i. get_elem? order i) e ∙ at in
              other (ground arith)) in
          (exact c k d rc at).0 (
            not_dominated order info.dom k j c (strict b) free
              (strict_dominator c j ne dominates at_c) at_c different)
