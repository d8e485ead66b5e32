-- ===== src/Base/Perms.antt =====
-- What a permutation of a list of numbers keeps.
use Prim.Native.Nat.{ℕ}
use mathlib.Core.Path.{◌≡◌, refl, sym, ap, subst, ◌∙◌}
use mathlib.Core.Bool.{◌||◌}
use mathlib.Core.Logic.{∥∥₁_elim}
use mathlib.Core.List.{List, [], ◌∷◌, Perm}
use mathlib.Core.List.{Permᴰ}
use mathlib.Core.List.Permᴰ.{nil, cons, swap, trans}
use native.Mathlib.Omega.{arith}
use llvm_scheduling_reg_pres.Base.Tests.{◌==◌}
use llvm_scheduling_reg_pres.Base.Members.{elem, Distinct}

elem_arranged : {xs ys : List ℕ} → Permᴰ xs ys → (k : ℕ) → elem k xs ≡ elem k ys
elem_arranged nil k = refl
elem_arranged (cons {b = b} {l₁ = l₁} e p) k =
    let rest = elem_arranged p k in ap (λ x. (k == x) || elem k l₁) e ∙ ap (λ t. (k == b) || t) rest
elem_arranged (swap {a = a} {b = b} {l = l} e f) k =
    let first = ap (λ x. k == x) e in let second = ap (λ x. k == x) f in ground arith
elem_arranged (trans p q) k = elem_arranged p k ∙ elem_arranged q k

Distinct-arranged : {xs ys : List ℕ} → Permᴰ xs ys → Distinct xs → Distinct ys
Distinct-arranged nil d = d
Distinct-arranged (cons {a = a} {l₂ = l₂} e p) d =
    (ap (λ x. elem x l₂) (sym e) ∙ sym (elem_arranged p a) ∙ d.0, Distinct-arranged p d.1)
Distinct-arranged (swap {a = a} {b = b} {a' = a'} {l = l} e f) d =
    let swapped : Distinct (b ∷ a ∷ l) = ground arith in
    subst (λ x. Distinct (a' ∷ x ∷ l)) e (subst (λ x. Distinct (x ∷ a ∷ l)) f swapped)
Distinct-arranged (trans p q) d = Distinct-arranged q (Distinct-arranged p d)

Distinct-prop : (xs : List ℕ) → IsProp (Distinct xs)
Distinct-prop [] = hlevel
Distinct-prop (x ∷ xs) = let rest = Distinct-prop xs in hlevel

elem-prop : (xs ys : List ℕ) (k : ℕ) → IsProp (elem k xs ≡ elem k ys)
elem-prop xs ys k = hlevel

pub elem-perm : (xs ys : List ℕ) → Perm xs ys → (k : ℕ) → elem k xs ≡ elem k ys
elem-perm xs ys p k = ∥∥₁_elim p (elem-prop xs ys k) (λ (d : Permᴰ xs ys). elem_arranged d k)

pub Distinct-perm : (xs ys : List ℕ) → Perm xs ys → Distinct xs → Distinct ys
Distinct-perm xs ys p d = ∥∥₁_elim p (Distinct-prop ys) (λ (q : Permᴰ xs ys). Distinct-arranged q d)
