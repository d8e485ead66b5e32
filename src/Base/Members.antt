-- ===== src/Base/Members.antt =====
-- Lists of addresses: membership as the code tests it, removal, and lists without repetition.
use Prim.Native.Nat.{ℕ, suc, ◌≤◌}
use mathlib.Core.Path.{◌≡◌, refl, ap}
use mathlib.Core.Logic.{inl, inr, ◌≢◌}
use mathlib.Core.Bool.{Bool, true, false, ◌||◌, ◌&&◌}
use mathlib.Core.List.{List, [], ◌∷◌, ◌++◌, Perm}
use mathlib.Core.List.Perm
use native.Mathlib.Omega.{arith}
use llvm_scheduling_reg_pres.Base.Tests.{◌==◌, if◌then◌else◌, ==_iff, Bool-cases}
use llvm_scheduling_reg_pres.Base.Lists.{length}

-- std::find(xs.begin(), xs.end(), x) != xs.end()
abbrev pub elem : ℕ → List ℕ → Bool
elem x [] = false
elem x (y ∷ ys) = x == y || elem x ys

-- xs.erase(std::find(xs.begin(), xs.end(), x)), where x occurs.
abbrev pub remove : ℕ → List ℕ → List ℕ
remove x [] = []
remove x (y ∷ ys) = if x == y then ys else y ∷ remove x ys

abbrev pub Distinct : List ℕ → Type 0
Distinct [] = Unit
Distinct (x ∷ xs) = (elem x xs ≡ false) × Distinct xs

-- How many items of the first list the second one lacks.
abbrev pub missing : List ℕ → List ℕ → ℕ
missing [] ds = 0
missing (x ∷ xs) ds = if elem x ds then missing xs ds else suc (missing xs ds)

pub elem-append : (x : ℕ) (xs ys : List ℕ) → elem x (xs ++ ys) ≡ (elem x xs || elem x ys)
elem-append x [] ys = refl
elem-append x (y ∷ xs) ys = ground (arith, elem-append x xs ys)

pub elem-remove : (x y : ℕ) (xs : List ℕ) → elem x (remove y xs) ≡ true → elem x xs ≡ true
elem-remove x y [] h = h
elem-remove x y (z ∷ xs) h = ground (arith, elem-remove x y xs)

pub elem-remove_ne : (x y : ℕ) (xs : List ℕ) → (x == y) ≡ false → elem x (remove y xs) ≡ elem x xs
elem-remove_ne x y [] h = refl
elem-remove_ne x y (z ∷ xs) h = ground (arith, elem-remove_ne x y xs)

pub elem-remove_self : (x : ℕ) (xs : List ℕ) → Distinct xs → elem x (remove x xs) ≡ false
elem-remove_self x [] d = refl
elem-remove_self x (y ∷ xs) d = ground (arith, elem-remove_self x xs)

pub Distinct-remove : (x : ℕ) (xs : List ℕ) → Distinct xs → Distinct (remove x xs)
Distinct-remove x [] d = tt
Distinct-remove x (y ∷ xs) d =
    ground (arith, Distinct-remove x xs, elem-remove y x xs, Bool-cases (elem y (remove x xs)))

pub length-remove :
    (x : ℕ) (xs : List ℕ) → elem x xs ≡ true → suc (length (remove x xs)) ≡ length xs
length-remove x [] h = ground arith
length-remove x (y ∷ xs) h = ground (arith, length-remove x xs)

pub Distinct-append :
    (xs ys : List ℕ)
    → Distinct xs
    → Distinct ys
    → ((x : ℕ) → elem x xs ≡ true → elem x ys ≡ false)
    → Distinct (xs ++ ys)
Distinct-append [] ys dx dy apart = dy
Distinct-append (x ∷ xs) ys dx dy apart = (
  ground (arith, elem-append x xs ys, apart x),
  Distinct-append xs ys dx.1 dy (λ z m. apart z (ground arith)),
)

pub perm_remove : (x : ℕ) (xs : List ℕ) → elem x xs ≡ true → Perm xs (x ∷ remove x xs)
perm_remove x [] h = absurd (ground arith)
perm_remove x (y ∷ xs) h = elim (Bool-cases (x == y)) [
  | inl e ↦ rw e (rw ((==_iff x y).0 e) Perm.rfl)
  | inr e ↦
      rw e
        (Perm.trans (Perm.cons y (perm_remove x xs (ground arith))) (Perm.swap x y (remove x xs)))
]

pub missing-cons_absent :
    (n : ℕ) (xs ds : List ℕ) → elem n xs ≡ false → missing xs (n ∷ ds) ≡ missing xs ds
missing-cons_absent n [] ds h = refl
missing-cons_absent n (x ∷ xs) ds h = ground (arith, missing-cons_absent n xs ds)

pub missing-cons :
    (n : ℕ) (xs ds : List ℕ)
    → Distinct xs
    → elem n xs ≡ true
    → elem n ds ≡ false
    → suc (missing xs (n ∷ ds)) ≡ missing xs ds
missing-cons n [] ds d m a = ground arith
missing-cons n (x ∷ xs) ds d m a = ground (arith, missing-cons n xs ds, missing-cons_absent n xs ds)

pub missing-le : (xs ds : List ℕ) → missing xs ds ≤ length xs
missing-le [] ds = omega arith
missing-le (x ∷ xs) ds = ground (arith, missing-le xs ds)

pub missing-pos :
    (n : ℕ) (xs ds : List ℕ) → elem n xs ≡ true → elem n ds ≡ false → 1 ≤ missing xs ds
missing-pos n [] ds m a = ground arith
missing-pos n (x ∷ xs) ds m a = ground (arith, missing-pos n xs ds)

-- for (x : xs) if (p(x)) out.push_back(x);
abbrev pub select : (ℕ → Bool) → List ℕ → List ℕ
select p [] = []
select p (x ∷ xs) = let rest = select p xs in if p x then x ∷ rest else rest

pub elem-select : (p : ℕ → Bool) (n : ℕ) (xs : List ℕ) → elem n (select p xs) ≡ (elem n xs && p n)
elem-select p n [] = refl
elem-select p n (x ∷ xs) = elim (Bool-cases (n == x)) [
  | inl e ↦ let same = (==_iff n x).0 e in ground (arith, elem-select p n xs, ap p same)
  | inr e ↦ ground (arith, elem-select p n xs)
]

pub Distinct-select : (p : ℕ → Bool) (xs : List ℕ) → Distinct xs → Distinct (select p xs)
Distinct-select p [] d = tt
Distinct-select p (x ∷ xs) d = ground (arith, Distinct-select p xs, elem-select p x xs)

pub missing-elem :
    (p : ℕ) (xs ds : List ℕ) → missing xs ds ≡ 0 → elem p xs ≡ true → elem p ds ≡ true
missing-elem p xs ds none_missing m = elim (Bool-cases (elem p ds)) [
  | inl e ↦ e
  | inr e ↦ absurd (omega (arith, missing-pos p xs ds m e))
]

-- An item that the second list lacks.
pub missing-witness :
    (xs ds : List ℕ) → missing xs ds ≢ 0 → (p : ℕ) × (elem p xs ≡ true) × (elem p ds ≡ false)
missing-witness [] ds h = absurd (h refl)
missing-witness (x ∷ xs) ds h = elim (Bool-cases (elem x ds)) [
  | inr e ↦ (x, ground arith, e)
  | inl e ↦ let (p, m, a) = missing-witness xs ds (λ z. h (ground arith)) in (p, ground arith, a)
]

pub elem-ne : (a x : ℕ) (xs : List ℕ) → elem a xs ≡ true → elem x xs ≡ false → (a == x) ≡ false
elem-ne a x xs m h = elim (Bool-cases (a == x)) [
  | inl e ↦ let same = (==_iff a x).0 e in let moved = ap (λ k. elem k xs) same in cc
  | inr e ↦ e
]

pub Distinct-right : (xs ys : List ℕ) → Distinct (xs ++ ys) → Distinct ys
Distinct-right [] ys d = d
Distinct-right (x ∷ xs) ys d = Distinct-right xs ys d.1

pub Distinct-apart :
    (x : ℕ) (xs ys : List ℕ) → Distinct (xs ++ ys) → elem x ys ≡ true → elem x xs ≡ false
Distinct-apart x [] ys d m = refl
Distinct-apart x (z ∷ xs) ys d m =
    ground (arith, Distinct-apart x xs ys d.1 m, elem-append z xs ys, elem-ne x z ys)
