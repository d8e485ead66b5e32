-- ===== src/Base/Precedence.antt =====
-- One address before another in a list.
use Prim.Native.Nat.{ℕ}
use mathlib.Core.Path.{◌≡◌, sym, ◌∙◌}
use mathlib.Core.Logic.{◌⊎◌, inl, inr}
use mathlib.Core.Bool.{Bool, true}
use mathlib.Core.List.{List, [], ◌∷◌, ◌++◌, flatten}
use native.Mathlib.Omega.{arith}
use llvm_scheduling_reg_pres.Base.Tests.{◌==◌, ==_iff, Bool-cases}
use llvm_scheduling_reg_pres.Base.Members.{elem, elem-append, select, elem-select}

-- `Before xs a b`: some occurrence of `a` stands before an occurrence of `b`.
abbrev pub Before : List ℕ → ℕ → ℕ → Type 0
Before [] a b = ⊥
Before (x ∷ xs) a b = ((x ≡ a) × (elem b xs ≡ true)) ⊎ Before xs a b

pub Before-elem : (a b : ℕ) (xs : List ℕ) → Before xs a b → elem a xs ≡ true
Before-elem a b [] h = absurd h
Before-elem a b (x ∷ xs) (inl h) = ground arith
Before-elem a b (x ∷ xs) (inr h) = ground (arith, Before-elem a b xs h)

pub Before-elem_right : (a b : ℕ) (xs : List ℕ) → Before xs a b → elem b xs ≡ true
Before-elem_right a b [] h = absurd h
Before-elem_right a b (x ∷ xs) (inl h) = ground arith
Before-elem_right a b (x ∷ xs) (inr h) = ground (arith, Before-elem_right a b xs h)

pub Before-append_left : (a b : ℕ) (xs ys : List ℕ) → Before xs a b → Before (xs ++ ys) a b
Before-append_left a b [] ys h = absurd h
Before-append_left a b (x ∷ xs) ys (inl h) = ground (arith, elem-append b xs ys)
Before-append_left a b (x ∷ xs) ys (inr h) = inr (Before-append_left a b xs ys h)

pub Before-append_right : (a b : ℕ) (xs ys : List ℕ) → Before ys a b → Before (xs ++ ys) a b
Before-append_right a b [] ys h = h
Before-append_right a b (x ∷ xs) ys h = inr (Before-append_right a b xs ys h)

pub Before-append_across :
    (a b : ℕ) (xs ys : List ℕ) → elem a xs ≡ true → elem b ys ≡ true → Before (xs ++ ys) a b
Before-append_across a b [] ys ha hb = absurd (ground arith)
Before-append_across a b (x ∷ xs) ys ha hb = elim (Bool-cases (a == x)) [
  | inl e ↦ inl (sym ((==_iff a x).0 e), ground (arith, elem-append b xs ys))
  | inr e ↦ inr (Before-append_across a b xs ys (ground arith) hb)
]

pub Before-append_cases :
    (a b : ℕ) (xs ys : List ℕ)
    → Before (xs ++ ys) a b
    → Before xs a b ⊎ ((elem a xs ≡ true) × (elem b ys ≡ true)) ⊎ Before ys a b
Before-append_cases a b [] ys h = inr (inr h)
Before-append_cases a b (x ∷ xs) ys (inl h) = ground (arith, elem-append b xs ys)
Before-append_cases a b (x ∷ xs) ys (inr h) = ground (arith, Before-append_cases a b xs ys h)

pub Before-select :
    (p : ℕ → Bool) (a b : ℕ) (xs : List ℕ)
    → p a ≡ true
    → p b ≡ true
    → Before xs a b
    → Before (select p xs) a b
Before-select p a b [] pa pb h = absurd h
Before-select p a b (x ∷ xs) pa pb (inl h) =
    let px : p x ≡ true = rw (h.0) pa in rw px (inl (h.0, elem-select p b xs ∙ rw (h.1, pb)))
Before-select p a b (x ∷ xs) pa pb (inr h) =
    let rest = Before-select p a b xs pa pb h in ground arith

-- The first address before the second in one of some lists.
abbrev pub BeforeIn : List (List ℕ) → ℕ → ℕ → Type 0
BeforeIn [] a b = ⊥
BeforeIn (xs ∷ xss) a b = Before xs a b ⊎ BeforeIn xss a b

pub BeforeIn-flatten : (a b : ℕ) (xss : List (List ℕ)) → BeforeIn xss a b → Before (flatten xss) a b
unfolding flatten
BeforeIn-flatten a b [] h = h
BeforeIn-flatten a b (xs ∷ xss) (inl h) = Before-append_left a b xs (flatten xss) h
BeforeIn-flatten a b (xs ∷ xss) (inr h) =
    Before-append_right a b xs (flatten xss) (BeforeIn-flatten a b xss h)
