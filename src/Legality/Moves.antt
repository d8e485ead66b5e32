-- ===== src/Legality/Moves.antt =====
-- Moving the members of a region in front of its boundary, one by one.
use llvm_scheduling_reg_pres.Base.{
  ℕ, ◌≡◌, refl, subst, true, false, List, [], ◌∷◌, ◌++◌, elem, remove, elem-append, elem-remove,
  elem-ne, append_assoc, append-nil, arith, Bool-cases,
}
use llvm_scheduling_reg_pres.Legality.{insert_before, move_before, move_all}
use llvm_scheduling_reg_pres.Legality.Ordered.{Covers, Covers-tail}

remove-append_right :
    (x : ℕ) (xs ys : List ℕ) → elem x xs ≡ false → remove x (xs ++ ys) ≡ xs ++ remove x ys
remove-append_right x [] ys h = refl
remove-append_right x (z ∷ xs) ys h = ground (arith, remove-append_right x xs ys)

remove-append_left :
    (x : ℕ) (xs ys : List ℕ) → elem x xs ≡ true → remove x (xs ++ ys) ≡ remove x xs ++ ys
remove-append_left x [] ys h = absurd (ground arith)
remove-append_left x (z ∷ xs) ys h = ground (arith, remove-append_left x xs ys)

insert_before-append :
    (x b : ℕ) (xs ys : List ℕ)
    → elem b xs ≡ false
    → insert_before x b (xs ++ ys) ≡ xs ++ insert_before x b ys
insert_before-append x b [] ys h = refl
insert_before-append x b (z ∷ xs) ys h = ground (arith, insert_before-append x b xs ys)

insert_before_self : (x b : ℕ) (ys : List ℕ) → insert_before x b (b ∷ ys) ≡ x ∷ b ∷ ys
insert_before_self x b ys = ground arith

module _ (b : ℕ) (pre post : List ℕ) (outside : elem b pre ≡ false) where
  -- The block while `moved` stands in its new place and `left` does not yet.
  abbrev between : List ℕ → List ℕ → List ℕ
  between left moved = pre ++ (left ++ (moved ++ b ∷ post))

  move_before-between :
      (x : ℕ) (left moved : List ℕ)
      → elem x pre ≡ false
      → elem x left ≡ true
      → elem b left ≡ false
      → elem b moved ≡ false
      → move_before x b (between left moved) ≡ between (remove x left) (moved ++ x ∷ [])
  move_before-between x left moved hp hl bl bm =
      rw (remove-append_right x pre (left ++ (moved ++ b ∷ post)) hp) (
        rw (remove-append_left x left (moved ++ b ∷ post) hl) (
          rw (insert_before-append x b pre (remove x left ++ (moved ++ b ∷ post)) outside) (
            rw (insert_before-append x b (remove x left) (moved ++ b ∷ post) not_left) (
              rw (insert_before-append x b moved (b ∷ post) bm)
                (rw (insert_before_self x b post) (rw (append_assoc moved (x ∷ []) (b ∷ post))))))))
    where
      not_left : elem b (remove x left) ≡ false
      not_left = ground (arith, elem-remove b x left, Bool-cases (elem b (remove x left)))

  move_all-between :
      (ordered left moved : List ℕ)
      → Covers ordered left
      → ((x : ℕ) → elem x left ≡ true → elem x pre ≡ false)
      → elem b left ≡ false
      → elem b moved ≡ false
      → move_all ordered b (between left moved) ≡ pre ++ ((moved ++ ordered) ++ b ∷ post)
  unfolding move_all
  move_all-between [] [] moved c apart bl bm = rw append-nil
  move_all-between [] (y ∷ left) moved c apart bl bm = absurd (omega (arith, c.as_many))
  move_all-between (x ∷ ordered) left moved c apart bl bm =
      let here = c.within x (ground arith) in
      rw (move_before-between x left moved (apart x here) here bl bm) (
        subst
          (λ q.
            move_all ordered b (between (remove x left) (moved ++ x ∷ [])) ≡ pre ++ (q ++ b ∷ post))
          (append_assoc moved (x ∷ []) ordered)
          (move_all-between ordered (remove x left) (moved ++ x ∷ []) (Covers-tail x ordered left c)
            (λ y m. apart y (elem-remove y x left m))
            (ground (arith, elem-remove b x left, Bool-cases (elem b (remove x left))))
            (ground (arith, elem-append b moved (x ∷ []), elem-ne x b left here bl))))

-- Moving all members of a region, in the order `ordered`, in front of the instruction behind the
-- region puts them there in that order and leaves the rest of the block alone.
pub move_all-region :
    (ordered region : List ℕ) (b : ℕ) (pre post : List ℕ)
    → Covers ordered region
    → ((x : ℕ) → elem x region ≡ true → elem x pre ≡ false)
    → elem b pre ≡ false
    → elem b region ≡ false
    → move_all ordered b (pre ++ (region ++ b ∷ post)) ≡ pre ++ (ordered ++ b ∷ post)
move_all-region ordered region b pre post c apart hp hr =
    move_all-between b pre post hp ordered region [] c apart hr refl
