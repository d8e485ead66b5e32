-- ===== src/Dominators/Numbers.antt =====
-- The positions of the blocks in the order.
use llvm_scheduling_reg_pres.Base.{
  ℕ, zero, suc, ◌+◌, ◌≡◌, refl, sym, ap, ◌∙◌, false, List, [], ◌∷◌, ◌++◌, Option, some, elem,
  Distinct, arith, update, get_elem?, length, ◌==◌, ==_refl, Bool-cases, Option-cases, inl, inr,
}
use llvm_scheduling_reg_pres.Ir.Function.{Function, blocks_of}
use llvm_scheduling_reg_pres.Reaching.{visit, visit_succs, visit_from, visit_order}
use llvm_scheduling_reg_pres.Dominators.{number_from}

pub number_from_absent :
    (i : ℕ) (bs : List ℕ) (idx : ℕ → Option ℕ) (b : ℕ)
    → elem b bs ≡ false
    → number_from i bs idx b ≡ idx b
number_from_absent i [] idx b h = refl
number_from_absent i (c ∷ bs) idx b h =
    let other : (c == b) ≡ false = ground arith in
    number_from_absent (suc i) bs (update idx c (some i)) b (ground arith) ∙ rw other refl

pub number_from-get_elem? :
    (i : ℕ) (bs : List ℕ) (idx : ℕ → Option ℕ) (k b : ℕ)
    → Distinct bs
    → get_elem? bs k ≡ some b
    → number_from i bs idx b ≡ some (i + k)
number_from-get_elem? i [] idx k b d at = absurd (ground arith)
number_from-get_elem? i (c ∷ bs) idx zero b d at =
    let is : c ≡ b = ground arith in
    ap (λ x. number_from (suc i) bs (update idx c (some i)) x) (sym is)
    ∙ number_from_absent (suc i) bs (update idx c (some i)) c d.0
    ∙ rw (==_refl c) (ap some (omega arith))
number_from-get_elem? i (c ∷ bs) idx (suc k) b d at =
    number_from-get_elem? (suc i) bs (update idx c (some i)) k b d.1 at ∙ ap some (omega arith)

-- The order starts with this block.
abbrev StartsWith : ℕ → List ℕ → Type 0
StartsWith b order = (rest : List ℕ) × (order ≡ b ∷ rest)

visit-StartsWith : (b s : ℕ) (order : List ℕ) → StartsWith b order → StartsWith b (visit s order)
visit-StartsWith b s order (rest, e) = elim (Bool-cases (elem s order)) [
  | inl m ↦ (rest, rw m e)
  | inr m ↦ (rest ++ s ∷ [], rw m (ap (λ l. l ++ s ∷ []) e))
]

visit_succs-StartsWith :
    (b : ℕ) (ss order : List ℕ) → StartsWith b order → StartsWith b (visit_succs ss order)
unfolding visit_succs
visit_succs-StartsWith b [] order h = h
visit_succs-StartsWith b (s ∷ ss) order h =
    visit_succs-StartsWith b ss (visit s order) (visit-StartsWith b s order h)

visit_from-StartsWith :
    (succs : ℕ → List ℕ) (b fuel i : ℕ) (order result : List ℕ)
    → StartsWith b order
    → visit_from succs fuel i order ≡ some result
    → StartsWith b result
unfolding visit_from
visit_from-StartsWith succs b zero i order result h e = elim (Option-cases (get_elem? order i)) [
  | inl n ↦ let same : order ≡ result = ground arith in (h.0, sym same ∙ h.1)
  | inr (k, s) ↦ absurd (ground arith)
]
visit_from-StartsWith succs b (suc fuel) i order result h e =
    elim (Option-cases (get_elem? order i)) [
      | inl n ↦ let same : order ≡ result = ground arith in (h.0, sym same ∙ h.1)
      | inr (k, s) ↦
          visit_from-StartsWith succs b fuel (suc i) (visit_succs (succs k) order) result
            (visit_succs-StartsWith b (succs k) order h) (rw (visit_from, s) at e)
    ]

-- The order of a function starts with the entry block.
pub visit_order-StartsWith :
    (f : Function) (order : List ℕ)
    → visit_order f ≡ some order
    → (rest : List ℕ) × (order ≡ f.entry ∷ rest)
unfolding visit_order
visit_order-StartsWith f order e =
    visit_from-StartsWith f.successors f.entry (length (blocks_of f)) 0 (f.entry ∷ []) order
      ([], refl) e
