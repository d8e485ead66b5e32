-- ===== src/Ir/Subset.antt =====
-- Bit vectors by inclusion: the laws of their operations.
use llvm_scheduling_reg_pres.Base.{
  ℕ, zero, suc, ◌≤◌, ◌<◌, ◌≡◌, refl, ap, true, false, not, ◌||◌, ◌&&◌, [], ◌∷◌, arith, length, ◌==◌,
}
use llvm_scheduling_reg_pres.Ir.BitVec.{
  BitVec, test, set, zeros, or_bits, and_bits, minus_bits, flip_bits, same_bits,
}

-- `ys` is as long as `xs` and has all its bits.
abbrev pub SubBits : BitVec → BitVec → Type 0
SubBits [] [] = Unit
SubBits (x ∷ xs) (y ∷ ys) = (x ≡ true → y ≡ true) × SubBits xs ys
SubBits _ _ = ⊥

-- The number of bits that are not set.
abbrev pub clear : BitVec → ℕ
clear [] = 0
clear (true ∷ xs) = clear xs
clear (false ∷ xs) = suc (clear xs)

pub SubBits-refl : (xs : BitVec) → SubBits xs xs
SubBits-refl [] = tt
SubBits-refl (x ∷ xs) = (λ h. h, SubBits-refl xs)

pub SubBits-trans : (xs ys zs : BitVec) → SubBits xs ys → SubBits ys zs → SubBits xs zs
SubBits-trans [] [] [] h k = tt
SubBits-trans (x ∷ xs) (y ∷ ys) (z ∷ zs) h k = (λ e. k.0 (h.0 e), SubBits-trans xs ys zs h.1 k.1)
SubBits-trans [] (y ∷ ys) zs h k = absurd h
SubBits-trans [] [] (z ∷ zs) h k = absurd k
SubBits-trans (x ∷ xs) [] zs h k = absurd h
SubBits-trans (x ∷ xs) (y ∷ ys) [] h k = absurd k

pub SubBits-length : (xs ys : BitVec) → SubBits xs ys → length xs ≡ length ys
SubBits-length [] [] h = refl
SubBits-length (x ∷ xs) (y ∷ ys) h = ap suc (SubBits-length xs ys h.1)
SubBits-length [] (y ∷ ys) h = absurd h
SubBits-length (x ∷ xs) [] h = absurd h

pub SubBits-test : (xs ys : BitVec) (i : ℕ) → SubBits xs ys → test xs i ≡ true → test ys i ≡ true
SubBits-test [] ys i h e = absurd (ground arith)
SubBits-test (x ∷ xs) [] i h e = absurd h
SubBits-test (x ∷ xs) (y ∷ ys) zero h e = h.0 e
SubBits-test (x ∷ xs) (y ∷ ys) (suc i) h e = SubBits-test xs ys i h.1 e

pub or_bits-SubBits :
    (xs xs' ys ys' : BitVec)
    → SubBits xs xs'
    → SubBits ys ys'
    → SubBits (or_bits xs ys) (or_bits xs' ys')
or_bits-SubBits [] [] ys ys' h k = k
or_bits-SubBits (x ∷ xs) (x' ∷ xs') [] [] h k = h
or_bits-SubBits (x ∷ xs) (x' ∷ xs') (y ∷ ys) (y' ∷ ys') h k =
    let one = h.0 in let two = k.0 in (λ e. ground arith, or_bits-SubBits xs xs' ys ys' h.1 k.1)
or_bits-SubBits [] (x' ∷ xs') ys ys' h k = absurd h
or_bits-SubBits (x ∷ xs) [] ys ys' h k = absurd h
or_bits-SubBits (x ∷ xs) (x' ∷ xs') [] (y' ∷ ys') h k = absurd k
or_bits-SubBits (x ∷ xs) (x' ∷ xs') (y ∷ ys) [] h k = absurd k

pub minus_bits-SubBits :
    (xs xs' ys : BitVec) → SubBits xs xs' → SubBits (minus_bits xs ys) (minus_bits xs' ys)
minus_bits-SubBits [] [] ys h = tt
minus_bits-SubBits (x ∷ xs) (x' ∷ xs') [] h = h
minus_bits-SubBits (x ∷ xs) (x' ∷ xs') (y ∷ ys) h =
    let one = h.0 in (λ e. ground arith, minus_bits-SubBits xs xs' ys h.1)
minus_bits-SubBits [] (x' ∷ xs') ys h = absurd h
minus_bits-SubBits (x ∷ xs) [] ys h = absurd h

pub and_bits-SubBits :
    (xs xs' ys : BitVec) → SubBits xs xs' → SubBits (and_bits xs ys) (and_bits xs' ys)
and_bits-SubBits [] [] ys h = tt
and_bits-SubBits (x ∷ xs) (x' ∷ xs') [] h = (λ e. cc, and_bits-SubBits xs xs' [] h.1)
and_bits-SubBits (x ∷ xs) (x' ∷ xs') (y ∷ ys) h =
    let one = h.0 in (λ e. ground arith, and_bits-SubBits xs xs' ys h.1)
and_bits-SubBits [] (x' ∷ xs') ys h = absurd h
and_bits-SubBits (x ∷ xs) [] ys h = absurd h

pub zeros-SubBits : (n : ℕ) (xs : BitVec) → length xs ≡ n → SubBits (zeros n) xs
zeros-SubBits zero [] e = tt
zeros-SubBits zero (x ∷ xs) e = absurd (omega (arith, e))
zeros-SubBits (suc n) [] e = absurd (omega (arith, e))
zeros-SubBits (suc n) (x ∷ xs) e = (λ h. cc, zeros-SubBits n xs (omega (arith, e)))

pub length-zeros : (n : ℕ) → length (zeros n) ≡ n
length-zeros zero = refl
length-zeros (suc n) = ap suc (length-zeros n)

pub length-or_bits : (xs ys : BitVec) → length ys ≤ length xs → length (or_bits xs ys) ≡ length xs
length-or_bits [] [] h = refl
length-or_bits [] (y ∷ ys) h = absurd (omega (arith, h))
length-or_bits (x ∷ xs) [] h = refl
length-or_bits (x ∷ xs) (y ∷ ys) h = ap suc (length-or_bits xs ys (omega (arith, h)))

pub length-or_bits-le :
    (n : ℕ) (xs ys : BitVec) → length xs ≤ n → length ys ≤ n → length (or_bits xs ys) ≤ n
length-or_bits-le n [] ys h k = k
length-or_bits-le n (x ∷ xs) [] h k = h
length-or_bits-le zero (x ∷ xs) (y ∷ ys) h k = absurd (omega (arith, h))
length-or_bits-le (suc n) (x ∷ xs) (y ∷ ys) h k =
    omega (arith, length-or_bits-le n xs ys (omega (arith, h)) (omega (arith, k)))

pub length-minus_bits : (xs ys : BitVec) → length (minus_bits xs ys) ≡ length xs
length-minus_bits [] ys = refl
length-minus_bits (x ∷ xs) [] = refl
length-minus_bits (x ∷ xs) (y ∷ ys) = ap suc (length-minus_bits xs ys)

pub length-and_bits : (xs ys : BitVec) → length (and_bits xs ys) ≡ length xs
length-and_bits [] ys = refl
length-and_bits (x ∷ xs) [] = ap suc (length-and_bits xs [])
length-and_bits (x ∷ xs) (y ∷ ys) = ap suc (length-and_bits xs ys)

pub length-set : (xs : BitVec) (i : ℕ) → length (set xs i) ≡ length xs
length-set [] i = refl
length-set (x ∷ xs) zero = refl
length-set (x ∷ xs) (suc i) = ap suc (length-set xs i)

pub test-zeros : (n i : ℕ) → test (zeros n) i ≡ false
test-zeros zero i = refl
test-zeros (suc n) zero = refl
test-zeros (suc n) (suc i) = test-zeros n i

pub test-or_bits : (xs ys : BitVec) (i : ℕ) → test (or_bits xs ys) i ≡ (test xs i || test ys i)
test-or_bits [] ys i = refl
test-or_bits (x ∷ xs) [] zero = ground arith
test-or_bits (x ∷ xs) [] (suc i) = ground arith
test-or_bits (x ∷ xs) (y ∷ ys) zero = refl
test-or_bits (x ∷ xs) (y ∷ ys) (suc i) = test-or_bits xs ys i

pub test-minus_bits :
    (xs ys : BitVec) (i : ℕ) → test (minus_bits xs ys) i ≡ (test xs i && not (test ys i))
test-minus_bits [] ys i = refl
test-minus_bits (x ∷ xs) [] zero = ground arith
test-minus_bits (x ∷ xs) [] (suc i) = ground arith
test-minus_bits (x ∷ xs) (y ∷ ys) zero = refl
test-minus_bits (x ∷ xs) (y ∷ ys) (suc i) = test-minus_bits xs ys i

pub test-and_bits : (xs ys : BitVec) (i : ℕ) → test (and_bits xs ys) i ≡ (test xs i && test ys i)
test-and_bits [] ys i = refl
test-and_bits (x ∷ xs) [] zero = ground arith
test-and_bits (x ∷ xs) [] (suc i) = test-and_bits xs [] i
test-and_bits (x ∷ xs) (y ∷ ys) zero = refl
test-and_bits (x ∷ xs) (y ∷ ys) (suc i) = test-and_bits xs ys i

pub test-flip_bits : (xs : BitVec) (i : ℕ) → i < length xs → test (flip_bits xs) i ≡ not (test xs i)
test-flip_bits [] i h = absurd (omega (arith, h))
test-flip_bits (x ∷ xs) zero h = refl
test-flip_bits (x ∷ xs) (suc i) h = test-flip_bits xs i (omega (arith, h))

pub test-set : (xs : BitVec) (i j : ℕ) → j < length xs → test (set xs i) j ≡ (i == j || test xs j)
test-set [] i j h = absurd (omega (arith, h))
test-set (x ∷ xs) zero zero h = refl
test-set (x ∷ xs) zero (suc j) h = ground arith
test-set (x ∷ xs) (suc i) zero h = ground arith
test-set (x ∷ xs) (suc i) (suc j) h = ground (arith, test-set xs i j (omega (arith, h)))

pub test_inside : (xs : BitVec) (i : ℕ) → test xs i ≡ true → i < length xs
test_inside [] i h = absurd (ground arith)
test_inside (x ∷ xs) zero h = omega arith
test_inside (x ∷ xs) (suc i) h = omega (arith, test_inside xs i h)

pub same_bits-eq : (xs ys : BitVec) → same_bits xs ys ≡ true → xs ≡ ys
same_bits-eq [] [] h = refl
same_bits-eq (true ∷ xs) (true ∷ ys) h = ap (λ l. true ∷ l) (same_bits-eq xs ys h)
same_bits-eq (false ∷ xs) (false ∷ ys) h = ap (λ l. false ∷ l) (same_bits-eq xs ys h)
same_bits-eq [] (y ∷ ys) h = absurd (ground arith)
same_bits-eq (true ∷ xs) [] h = absurd (ground arith)
same_bits-eq (false ∷ xs) [] h = absurd (ground arith)
same_bits-eq (true ∷ xs) (false ∷ ys) h = absurd (ground arith)
same_bits-eq (false ∷ xs) (true ∷ ys) h = absurd (ground arith)

pub clear-le-length : (xs : BitVec) → clear xs ≤ length xs
clear-le-length [] = omega arith
clear-le-length (true ∷ xs) = omega (arith, clear-le-length xs)
clear-le-length (false ∷ xs) = omega (arith, clear-le-length xs)

pub SubBits-clear : (xs ys : BitVec) → SubBits xs ys → clear ys ≤ clear xs
SubBits-clear [] [] h = omega arith
SubBits-clear (true ∷ xs) (true ∷ ys) h = SubBits-clear xs ys h.1
SubBits-clear (true ∷ xs) (false ∷ ys) h = absurd (let e = h.0 refl in cc)
SubBits-clear (false ∷ xs) (true ∷ ys) h = omega (arith, SubBits-clear xs ys h.1)
SubBits-clear (false ∷ xs) (false ∷ ys) h = omega (arith, SubBits-clear xs ys h.1)
SubBits-clear [] (y ∷ ys) h = absurd h
SubBits-clear (x ∷ xs) [] h = absurd h

-- More bits, and not the same ones: fewer are clear.
pub SubBits-clear-lt :
    (xs ys : BitVec) → SubBits xs ys → same_bits ys xs ≡ false → clear ys < clear xs
SubBits-clear-lt [] [] h e = absurd (ground arith)
SubBits-clear-lt (true ∷ xs) (true ∷ ys) h e = SubBits-clear-lt xs ys h.1 e
SubBits-clear-lt (true ∷ xs) (false ∷ ys) h e = absurd (let f = h.0 refl in cc)
SubBits-clear-lt (false ∷ xs) (true ∷ ys) h e = omega (arith, SubBits-clear xs ys h.1)
SubBits-clear-lt (false ∷ xs) (false ∷ ys) h e = omega (arith, SubBits-clear-lt xs ys h.1 e)
SubBits-clear-lt [] (y ∷ ys) h e = absurd h
SubBits-clear-lt (x ∷ xs) [] h e = absurd h
