-- ===== src/Legality/Ordered.antt =====
-- The members of a region as the schedule orders them.
use llvm_scheduling_reg_pres.Base.{
  ℕ, ◌≡◌, refl, true, not, ◌&&◌, List, [], ◌∷◌, ◌==◌, elem, remove, Distinct, Before, length,
  length-remove, elem-remove_ne, perm_remove, Perm, Before-elem, Before-elem_right, elem-ne, arith,
  Bool-cases, inl, inr, ◌∙◌,
}
use mathlib.Core.List.Perm
use llvm_scheduling_reg_pres.Legality.{ordered_from}

pub elem-ordered_from :
    (i : ℕ) (members seen schedule : List ℕ)
    → elem i (ordered_from members seen schedule)
      ≡ (elem i schedule && (elem i members && not (elem i seen)))
unfolding ordered_from
elem-ordered_from i members seen [] = refl
elem-ordered_from i members seen (j ∷ js) =
    ground (arith, elem-ordered_from i members (j ∷ seen) js, elem-ordered_from i members seen js)

pub Distinct-ordered_from :
    (members seen schedule : List ℕ) → Distinct (ordered_from members seen schedule)
unfolding ordered_from
Distinct-ordered_from members seen [] = tt
Distinct-ordered_from members seen (j ∷ js) = ground (
  arith,
  Distinct-ordered_from members (j ∷ seen) js,
  Distinct-ordered_from members seen js,
  elem-ordered_from j members (j ∷ seen) js,
)

pub Before-ordered_from :
    (a b : ℕ) (members seen schedule : List ℕ)
    → Distinct schedule
    → Before schedule a b
    → (elem a members && not (elem a seen)) ≡ true
    → (elem b members && not (elem b seen)) ≡ true
    → Before (ordered_from members seen schedule) a b
unfolding ordered_from
Before-ordered_from a b members seen [] d h ha hb = absurd h
Before-ordered_from a b members seen (j ∷ js) d (inl h) ha hb =
    ground (arith, elem-ordered_from b members (j ∷ seen) js)
Before-ordered_from a b members seen (j ∷ js) d (inr h) ha hb =
    let a_ne = elem-ne a j js (Before-elem a b js h) d.0 in
    let b_ne = elem-ne b j js (Before-elem_right a b js h) d.0 in
    let after = Before-ordered_from a b members (j ∷ seen) js d.1 h (ground arith) (ground arith) in
    let without = Before-ordered_from a b members seen js d.1 h ha hb in ground arith

-- `xs` lists members of `ys`, each once, and there are as many of them: so it lists them all.
pub record Covers (xs ys : List ℕ) : Type 0 where
  pub distinct : Distinct xs
  pub within : (i : ℕ) → elem i xs ≡ true → elem i ys ≡ true
  pub as_many : length xs ≡ length ys

pub Covers-tail : (x : ℕ) (xs ys : List ℕ) → Covers (x ∷ xs) ys → Covers xs (remove x ys)
Covers-tail x xs ys c = record {
  distinct = c.distinct.1;
  within = λ i m. ground (arith, c.distinct, c.within i, elem-remove_ne i x ys);
  as_many = omega (arith, c.as_many, length-remove x ys (c.within x (ground arith)));
}

pub Covers-perm : (xs ys : List ℕ) → Covers xs ys → Perm ys xs
Covers-perm [] [] c = Perm.rfl
Covers-perm [] (y ∷ ys) c = absurd (omega (arith, c.as_many))
Covers-perm (x ∷ xs) ys c =
    Perm.trans (perm_remove x ys (c.within x (ground arith)))
      (Perm.cons x (Covers-perm xs (remove x ys) (Covers-tail x xs ys c)))

pub Covers-elem : (i : ℕ) (xs ys : List ℕ) → Covers xs ys → elem i ys ≡ true → elem i xs ≡ true
Covers-elem i [] [] c m = m
Covers-elem i [] (y ∷ ys) c m = absurd (omega (arith, c.as_many))
Covers-elem i (x ∷ xs) ys c m = elim (Bool-cases (i == x)) [
  | inl e ↦ ground arith
  | inr e ↦
      let rest =
        Covers-elem i xs (remove x ys) (Covers-tail x xs ys c) (elem-remove_ne i x ys e ∙ m) in
      ground arith
]

-- A schedule that names as many members as the region has names them all.
pub ordered_from-Covers :
    (members schedule : List ℕ)
    → length (ordered_from members [] schedule) ≡ length members
    → Covers (ordered_from members [] schedule) members
ordered_from-Covers members schedule h = record {
  distinct = Distinct-ordered_from members [] schedule;
  within = λ i m. ground (arith, elem-ordered_from i members [] schedule);
  as_many = h;
}
