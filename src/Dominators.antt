-- ===== src/Dominators.antt =====
-- include/dom.hpp: computeDominators.
pub mod Meet
pub mod Numbers
pub mod Step
pub mod Correct
pub mod Immediate
pub mod Exists
use llvm_scheduling_reg_pres.Base.{
  ℕ, zero, suc, ◌*◌, Bool, true, false, not, ◌||◌, ◌&&◌, List, [], ◌∷◌, Option, none, some, bind,
  if◌then◌else◌, length, update, get_elem?, ◌==◌,
}
use llvm_scheduling_reg_pres.Ir.Function.{Function}
use llvm_scheduling_reg_pres.Ir.BitVec.{BitVec, test, set, reset, zeros, ones, and_bits, same_bits}
use llvm_scheduling_reg_pres.Dataflow.{iterate, fill}
use llvm_scheduling_reg_pres.Reaching.{visit_order}

pub record DomInfo : Type 0 where
  pub order : List ℕ
  pub idx : ℕ → Option ℕ
  pub dom : ℕ → BitVec
  pub idom : ℕ → Option ℕ

-- info.idx[info.order[i]] = i, from position `i` on
abbrev pub number_from : ℕ → List ℕ → (ℕ → Option ℕ) → ℕ → Option ℕ
number_from i [] idx = idx
number_from i (b ∷ bs) idx = number_from (suc i) bs (update idx b (some i))

-- The loop over the predecessors: newDom and hasPred.
abbrev pub meet_doms : (ℕ → Option ℕ) → (ℕ → BitVec) → List ℕ → BitVec × Bool → BitVec × Bool
meet_doms idx V [] acc = acc
meet_doms idx V (p ∷ ps) acc = elim (idx p) [
  | none ↦ meet_doms idx V ps acc
  | some _ ↦ meet_doms idx V ps (and_bits acc.0 (V p), true)
]

-- newDom for the block at position `i` of the order.
abbrev pub new_dom : Function → (ℕ → Option ℕ) → (width i : ℕ) → ℕ → (ℕ → BitVec) → BitVec
new_dom f idx width i b V =
    let met = meet_doms idx V (f.predecessors b) (ones width, false) in
    set (if met.1 then met.0 else zeros width) i

-- info.idx[b] for a block of the order.
abbrev pub position : (ℕ → Option ℕ) → ℕ → ℕ
position idx b = elim (idx b) [ none ↦ 0 | some i ↦ i ]

-- The body of the loop over the order, whose block at position `i` is `b`.
pub dom_step : Function → (ℕ → Option ℕ) → (width : ℕ) → ℕ → (ℕ → BitVec) → BitVec × Bool
dom_step f idx width b V =
    let new = new_dom f idx width (position idx b) b V in
    if same_bits new (V b) then (V b, false) else (new, true)

-- DOM[entry] = {entry}, all blocks for the others.
abbrev pub first_doms : (width entry : ℕ) → List ℕ → ℕ → BitVec
first_doms width entry rest =
    update (fill (λ b. ones width) (entry ∷ rest) (λ b. [])) entry (set (zeros width) 0)

-- set_bits(), where the vector starts at position `i`
abbrev pub set_bits_from : ℕ → BitVec → List ℕ
set_bits_from i [] = []
set_bits_from i (bit ∷ bits) =
    let rest = set_bits_from (suc i) bits in if bit then i ∷ rest else rest

-- The loop over d2.
abbrev pub is_dominated_by_another : List ℕ → (ℕ → BitVec) → ℕ → List ℕ → Bool
is_dominated_by_another order dom d [] = false
is_dominated_by_another order dom d (d2 ∷ ds) =
    let rest = is_dominated_by_another order dom d ds in
    elim (get_elem? order d2) [
      | none ↦ rest
      | some b2 ↦ if not (d2 == d) && test (dom b2) d then true else rest
    ]

-- The loop over d: immDom.
abbrev pub imm_dom : List ℕ → (ℕ → BitVec) → List ℕ → List ℕ → Option ℕ
imm_dom order dom strict [] = none
imm_dom order dom strict (d ∷ ds) =
    let rest = imm_dom order dom strict ds in
    if is_dominated_by_another order dom d strict then rest else get_elem? order d

-- The loop that fills idom; the entry block has none.
abbrev pub idoms : List ℕ → (ℕ → Option ℕ) → (ℕ → BitVec) → (entry : ℕ) → List ℕ → ℕ → Option ℕ
idoms order idx dom entry rest =
    fill
      (λ b.
        let strict = set_bits_from 0 (reset (dom b) (position idx b)) in
        imm_dom order dom strict strict)
      rest (update (λ b. none) entry none)

-- The loop on an order that starts with the entry block.
unfoldable pub dominators_on : Function → (entry : ℕ) → List ℕ → Option DomInfo
unfolding iterate dom_step
dominators_on f entry rest =
    let width = suc (length rest) in
    let idx = number_from 0 (entry ∷ rest) (λ b. none) in
    bind
      (iterate (dom_step f idx width) (suc (length rest * width)) rest
        (first_doms width entry rest))
      λ dom. some (record {
        order = entry ∷ rest;
        idx = idx;
        dom = dom;
        idom = idoms (entry ∷ rest) idx dom entry rest;
      })

-- Each pass but the last clears a bit of some block. `order[0]` of an empty order is out of range.
unfoldable pub compute_dominators : Function → Option DomInfo
unfolding dominators_on visit_order
compute_dominators f =
    bind (visit_order f)
      λ order. elim order [ [] ↦ none | entry ∷ rest ↦ dominators_on f entry rest ]
