-- ===== src/Base/Indexed.antt =====
-- Items of a list by their index.
use Prim.Native.Nat.{ℕ, zero, suc, ◌≤◌, ◌<◌}
use mathlib.Core.Path.{◌≡◌, refl, ap, sym, ◌∙◌}
use mathlib.Core.Logic.{inl, inr}
use mathlib.Core.Bool.{true}
use mathlib.Core.List.{List, [], ◌∷◌, ◌++◌}
use mathlib.Core.Option.{none, some}
use native.Mathlib.Omega.{arith}
use llvm_scheduling_reg_pres.Base.Tests.{◌==◌, ==_iff, Bool-cases}
use llvm_scheduling_reg_pres.Base.Lists.{length, get_elem?}
use llvm_scheduling_reg_pres.Base.Members.{
  elem, Distinct, remove, length-remove, elem-remove_ne, elem-ne,
}

pub length-inside :
    (xs ys : List ℕ)
    → Distinct xs
    → ((m : ℕ) → elem m xs ≡ true → elem m ys ≡ true)
    → length xs ≤ length ys
length-inside [] ys d h = omega arith
length-inside (x ∷ xs) ys d h =
    let shorter = length-remove x ys (h x (ground arith)) in
    let rest =
      length-inside xs (remove x ys) d.1
        (λ m e. elem-remove_ne m x ys (elem-ne m x xs e d.0) ∙ h m (ground arith)) in
    omega (arith, shorter, rest)

pub get_elem?-append_left :
    (xs ys : List ℕ) (i : ℕ) → i < length xs → get_elem? (xs ++ ys) i ≡ get_elem? xs i
get_elem?-append_left [] ys i h = absurd (omega (arith, h))
get_elem?-append_left (x ∷ xs) ys zero h = refl
get_elem?-append_left (x ∷ xs) ys (suc i) h = get_elem?-append_left xs ys i (omega (arith, h))

pub get_elem?-last : (xs : List ℕ) (x : ℕ) → get_elem? (xs ++ x ∷ []) (length xs) ≡ some x
get_elem?-last [] x = refl
get_elem?-last (y ∷ xs) x = get_elem?-last xs x

pub get_elem?-lt : (xs : List ℕ) (i x : ℕ) → get_elem? xs i ≡ some x → i < length xs
get_elem?-lt [] i x h = absurd (ground arith)
get_elem?-lt (y ∷ xs) zero x h = omega arith
get_elem?-lt (y ∷ xs) (suc i) x h = omega (arith, get_elem?-lt xs i x h)

pub get_elem?-elem : (xs : List ℕ) (i x : ℕ) → get_elem? xs i ≡ some x → elem x xs ≡ true
get_elem?-elem [] i x h = absurd (ground arith)
get_elem?-elem (y ∷ xs) zero x h = ground arith
get_elem?-elem (y ∷ xs) (suc i) x h = ground (arith, get_elem?-elem xs i x h)

pub get_elem?-none : (xs : List ℕ) (i : ℕ) → get_elem? xs i ≡ none → length xs ≤ i
get_elem?-none [] i h = omega arith
get_elem?-none (y ∷ xs) zero h = absurd (ground arith)
get_elem?-none (y ∷ xs) (suc i) h = omega (arith, get_elem?-none xs i h)

-- Where an item of the list stands.
pub index_of-elem : (xs : List ℕ) (x : ℕ) → elem x xs ≡ true → (i : ℕ) × (get_elem? xs i ≡ some x)
index_of-elem [] x h = absurd (ground arith)
index_of-elem (y ∷ xs) x h = elim (Bool-cases (x == y)) [
  | inl e ↦ (0, ap some (sym ((==_iff x y).0 e)))
  | inr e ↦ let (i, at) = index_of-elem xs x (ground arith) in (suc i, at)
]
