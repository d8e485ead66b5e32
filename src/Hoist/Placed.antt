-- ===== src/Hoist/Placed.antt =====
-- Where the instructions stand while a schedule is applied: each in one block, and none is lost.
use llvm_scheduling_reg_pres.Base.{
  ℕ, ◌≡◌, refl, Bool, true, false, not, ◌&&◌, ◌||◌, List, [], ◌∷◌, elem, arith, ◌==◌, Bool-cases,
  inl, inr, ap, ◌∙◌, ==_iff, ==_refl, Distinct, remove, elem-remove_self, elem-remove_ne,
  Distinct-remove, update,
}
use llvm_scheduling_reg_pres.Legality.{insert_before}

elem-insert_before :
    (k i t : ℕ) (xs : List ℕ) → elem k (insert_before i t xs) ≡ ((k == i) || elem k xs)
elem-insert_before k i t [] = ground arith
elem-insert_before k i t (x ∷ xs) = let rest = elem-insert_before k i t xs in ground arith

Distinct-insert_before :
    (i t : ℕ) (xs : List ℕ) → elem i xs ≡ false → Distinct xs → Distinct (insert_before i t xs)
Distinct-insert_before i t [] out d = ground arith
Distinct-insert_before i t (x ∷ xs) out d =
    let rest = Distinct-insert_before i t xs (ground arith) d.1 in
    let at = elem-insert_before x i t xs in ground arith

-- Every instruction of a block has that block as its parent, and stands there once.
pub record IsPlaced (contents : ℕ → List ℕ) (parent : ℕ → ℕ) : Type 0 where
  pub distinct : (bb : ℕ) → Distinct (contents bb)
  pub home : (bb i : ℕ) → elem i (contents bb) ≡ true → parent i ≡ bb

-- `i` stands in its parent.
abbrev pub standing : (ℕ → List ℕ) → (ℕ → ℕ) → ℕ → Bool
standing contents parent i = elem i (contents (parent i))

-- What moves inside the blocks of a trace keep.
pub record Keeps (trace : List ℕ) (contents : ℕ → List ℕ) (parent : ℕ → ℕ) (contents' : ℕ → List ℕ)
    (parent' : ℕ → ℕ) : Type 0 where
  pub placed : IsPlaced contents' parent'
  pub none_lost : (i : ℕ) → standing contents' parent' i ≡ standing contents parent i
  pub outside : (bb : ℕ) → elem bb trace ≡ false → contents' bb ≡ contents bb
  pub inside : (i : ℕ) → elem (parent i) trace ≡ true → elem (parent' i) trace ≡ true
  pub away : (i : ℕ) → elem (parent i) trace ≡ false → parent' i ≡ parent i

pub Keeps-refl :
    (trace : List ℕ) (contents : ℕ → List ℕ) (parent : ℕ → ℕ)
    → IsPlaced contents parent
    → Keeps trace contents parent contents parent
Keeps-refl trace contents parent p = record {
  placed = p;
  none_lost = λ i. refl;
  outside = λ bb m. refl;
  inside = λ i m. m;
  away = λ i m. refl;
}

pub Keeps-trans :
    (trace : List ℕ) (c c' c'' : ℕ → List ℕ) (p p' p'' : ℕ → ℕ)
    → Keeps trace c p c' p'
    → Keeps trace c' p' c'' p''
    → Keeps trace c p c'' p''
Keeps-trans trace c c' c'' p p' p'' x y = record {
  placed = y.placed;
  none_lost = λ i. y.none_lost i ∙ x.none_lost i;
  outside = λ bb m. y.outside bb m ∙ x.outside bb m;
  inside = λ i m. y.inside i (x.inside i m);
  away = λ i m. let same = x.away i m in y.away i (ap (λ b. elem b trace) same ∙ m) ∙ same;
}

-- One move.
module _ (trace : List ℕ) (contents : ℕ → List ℕ) (parent : ℕ → ℕ)
    (placed : IsPlaced contents parent) (i target t : ℕ)
    (stands : standing contents parent i ≡ true) (from_in : elem (parent i) trace ≡ true)
    (target_in : elem target trace ≡ true) where
  abbrev without : ℕ → List ℕ
  without = update contents (parent i) (remove i (contents (parent i)))

  abbrev moved : ℕ → List ℕ
  moved = update without target (insert_before i t (without target))

  abbrev parent_after : ℕ → ℕ
  parent_after = update parent i target

  elem-without : (bb k : ℕ) → elem k (without bb) ≡ (elem k (contents bb) && not (k == i))
  elem-without bb k = elim (Bool-cases (parent i == bb)) [
    | inl e ↦
        let here = ap (λ b. elem k (contents b)) ((==_iff (parent i) bb).0 e) in
        elim (Bool-cases (k == i)) [
          | inl s ↦
              let gone = elem-remove_self i (contents (parent i)) (placed.distinct (parent i)) in
              let same = ap (λ j. elem j (remove i (contents (parent i)))) ((==_iff k i).0 s) in
              rw e (ground arith)
          | inr o ↦ let kept = elem-remove_ne k i (contents (parent i)) o in rw e (ground arith)
        ]
    | inr e ↦ elim (Bool-cases (elem i (contents bb))) [
      | inl there ↦
          absurd (let is = (==_iff (parent i) bb).1 (placed.home bb i there) in ground arith)
      | inr absent ↦ rw e (elim (Bool-cases (k == i)) [
        | inl s ↦ let same = ap (λ j. elem j (contents bb)) ((==_iff k i).0 s) in ground arith
        | inr o ↦ ground arith
      ])
    ]
  ]

  elem-moved :
      (bb k : ℕ)
      → elem k (moved bb) ≡ ((elem k (contents bb) && not (k == i)) || ((k == i) && (target == bb)))
  elem-moved bb k =
      let left = elem-without bb k in
      elim (Bool-cases (target == bb)) [
        | inl e ↦
            let same = ap (λ b. elem k (without b)) ((==_iff target bb).0 e) in
            let added = elem-insert_before k i t (without target) in rw e (ground arith)
        | inr e ↦ rw e (ground arith)
      ]

  Distinct-without : (bb : ℕ) → Distinct (without bb)
  Distinct-without bb = elim (Bool-cases (parent i == bb)) [
    | inl e ↦ rw e (Distinct-remove i (contents (parent i)) (placed.distinct (parent i)))
    | inr e ↦ rw e (placed.distinct bb)
  ]

  Distinct-moved : (bb : ℕ) → Distinct (moved bb)
  Distinct-moved bb = elim (Bool-cases (target == bb)) [
    | inl e ↦
        let out = elem-without target i in
        let self = ==_refl i in
        rw e (Distinct-insert_before i t (without target) (ground arith) (Distinct-without target))
    | inr e ↦ rw e (Distinct-without bb)
  ]

  home_moved : (bb k : ℕ) → elem k (moved bb) ≡ true → parent_after k ≡ bb
  home_moved bb k h =
      let where_is = elem-moved bb k in
      elim (Bool-cases (i == k)) [
        | inl e ↦ let at : (target == bb) ≡ true = ground arith in rw e ((==_iff target bb).0 at)
        | inr e ↦ rw e (placed.home bb k (ground arith))
      ]

  none_lost_moved : (k : ℕ) → standing moved parent_after k ≡ standing contents parent k
  none_lost_moved k = elim (Bool-cases (i == k)) [
    | inl e ↦
        let is = (==_iff i k).0 e in
        let there = elem-moved target k in
        let self = ==_refl target in
        let was = ap (λ j. standing contents parent j) is in rw e (ground arith)
    | inr e ↦ let there = elem-moved (parent k) k in rw e (ground arith)
  ]

  pub moved-Keeps : Keeps trace contents parent moved parent_after
  moved-Keeps = record {
    placed = record { distinct = Distinct-moved; home = home_moved };
    none_lost = none_lost_moved;
    outside = λ bb out.
        let not_target : (target == bb) ≡ false = elim (Bool-cases (target == bb)) [
          | inl e ↦
              absurd (let same = ap (λ b. elem b trace) ((==_iff target bb).0 e) in ground arith)
          | inr e ↦ e
        ] in
        let not_from : (parent i == bb) ≡ false = elim (Bool-cases (parent i == bb)) [
          | inl e ↦
              absurd
                (let same = ap (λ b. elem b trace) ((==_iff (parent i) bb).0 e) in ground arith)
          | inr e ↦ e
        ] in
        rw not_target (rw not_from refl);
    inside = λ k m. elim (Bool-cases (i == k)) [ inl e ↦ rw e target_in | inr e ↦ rw e m ];
    away = λ k m. elim (Bool-cases (i == k)) [
      | inl e ↦
          absurd (let same = ap (λ j. elem (parent j) trace) ((==_iff i k).0 e) in ground arith)
      | inr e ↦ rw e refl
    ];
  }
