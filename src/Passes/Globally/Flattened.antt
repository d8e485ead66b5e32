-- ===== src/Passes/Globally/Flattened.antt =====
-- The instructions of several blocks together.
use mathlib.Core.List.{flatten}
use llvm_scheduling_reg_pres.Base.{
  ℕ, ◌≡◌, sym, ap, ◌∙◌, true, List, [], ◌∷◌, ◌++◌, map, elem, elem-append, Distinct,
  Distinct-append, arith, Bool-cases, inl, inr,
}
use llvm_scheduling_reg_pres.Hoist.Placed.{IsPlaced}

-- Where an instruction of the concatenation stands.
pub elem-flatten_of :
    (i : ℕ) (contents : ℕ → List ℕ) (bs : List ℕ)
    → elem i (flatten (map contents bs)) ≡ true
    → (b : ℕ) × (elem b bs ≡ true) × (elem i (contents b) ≡ true)
unfolding flatten
elem-flatten_of i contents [] h = absurd (ground arith)
elem-flatten_of i contents (b ∷ bs) h =
    let all = elem-append i (contents b) (flatten (map contents bs)) in
    elim (Bool-cases (elem i (contents b))) [
      | inl here ↦ (b, ground arith, here)
      | inr away ↦
          let later : elem i (flatten (map contents bs)) ≡ true = ground arith in
          let (c, m, at) = elem-flatten_of i contents bs later in (c, ground arith, at)
    ]

pub Distinct-flatten :
    (contents : ℕ → List ℕ) (parent : ℕ → ℕ) (bs : List ℕ)
    → IsPlaced contents parent
    → Distinct bs
    → Distinct (flatten (map contents bs))
unfolding flatten
Distinct-flatten contents parent [] p d = tt
Distinct-flatten contents parent (b ∷ bs) p d =
    Distinct-append (contents b) (flatten (map contents bs)) (p.distinct b)
      (Distinct-flatten contents parent bs p d.1)
      (λ i here. elim (Bool-cases (elem i (flatten (map contents bs)))) [
        | inr away ↦ away
        | inl there ↦
            let (c, m, at) = elem-flatten_of i contents bs there in
            let same = sym (p.home b i here) ∙ p.home c i at in
            absurd (let in_bs = ap (λ k. elem k bs) same in ground (arith, d.0))
      ])

-- A concatenation without repetition, taken apart.
pub Distinct-append_left : (xs ys : List ℕ) → Distinct (xs ++ ys) → Distinct xs
Distinct-append_left [] ys d = tt
Distinct-append_left (x ∷ xs) ys d =
    let all = elem-append x xs ys in (ground (arith, d.0), Distinct-append_left xs ys d.1)
