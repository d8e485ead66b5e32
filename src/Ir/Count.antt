-- ===== src/Ir/Count.antt =====
-- Bit vectors by inclusion: the number of bits set, and vectors of ones.
use llvm_scheduling_reg_pres.Base.{
  ℕ, zero, suc, ◌≤◌, ◌<◌, ◌≡◌, refl, ap, true, false, [], ◌∷◌, arith, length,
}
use llvm_scheduling_reg_pres.Ir.BitVec.{BitVec, test, ones, count, same_bits}
use llvm_scheduling_reg_pres.Ir.Subset.{SubBits}

-- Inclusion by the bits.
pub SubBits-bits :
    (xs ys : BitVec)
    → length xs ≡ length ys
    → ((i : ℕ) → test xs i ≡ true → test ys i ≡ true)
    → SubBits xs ys
SubBits-bits [] [] e h = tt
SubBits-bits (x ∷ xs) (y ∷ ys) e h = (h 0, SubBits-bits xs ys (omega (arith, e)) (λ i. h (suc i)))
SubBits-bits [] (y ∷ ys) e h = absurd (omega (arith, e))
SubBits-bits (x ∷ xs) [] e h = absurd (omega (arith, e))

pub length-ones : (n : ℕ) → length (ones n) ≡ n
length-ones zero = refl
length-ones (suc n) = ap suc (length-ones n)

pub test-ones : (n i : ℕ) → i < n → test (ones n) i ≡ true
test-ones zero i h = absurd (omega (arith, h))
test-ones (suc n) zero h = refl
test-ones (suc n) (suc i) h = test-ones n i (omega (arith, h))

pub count-le-length : (xs : BitVec) → count xs ≤ length xs
count-le-length [] = omega arith
count-le-length (true ∷ xs) = omega (arith, count-le-length xs)
count-le-length (false ∷ xs) = omega (arith, count-le-length xs)

pub SubBits-count : (xs ys : BitVec) → SubBits xs ys → count xs ≤ count ys
SubBits-count [] [] h = omega arith
SubBits-count (true ∷ xs) (true ∷ ys) h = omega (arith, SubBits-count xs ys h.1)
SubBits-count (true ∷ xs) (false ∷ ys) h = absurd (let e = h.0 refl in cc)
SubBits-count (false ∷ xs) (true ∷ ys) h = omega (arith, SubBits-count xs ys h.1)
SubBits-count (false ∷ xs) (false ∷ ys) h = SubBits-count xs ys h.1
SubBits-count [] (y ∷ ys) h = absurd h
SubBits-count (x ∷ xs) [] h = absurd h

-- Fewer bits, and not the same ones.
pub SubBits-count-lt :
    (xs ys : BitVec) → SubBits xs ys → same_bits xs ys ≡ false → count xs < count ys
SubBits-count-lt [] [] h e = absurd (ground arith)
SubBits-count-lt (true ∷ xs) (true ∷ ys) h e = omega (arith, SubBits-count-lt xs ys h.1 e)
SubBits-count-lt (true ∷ xs) (false ∷ ys) h e = absurd (let f = h.0 refl in cc)
SubBits-count-lt (false ∷ xs) (true ∷ ys) h e = omega (arith, SubBits-count xs ys h.1)
SubBits-count-lt (false ∷ xs) (false ∷ ys) h e = SubBits-count-lt xs ys h.1 e
SubBits-count-lt [] (y ∷ ys) h e = absurd h
SubBits-count-lt (x ∷ xs) [] h e = absurd h
