-- ===== src/Ir/BitVec.antt =====
-- llvm::BitVector as a list of bits. `test` and `set` are called inside the length only.
use llvm_scheduling_reg_pres.Base.{
  ℕ, suc, Bool, true, false, not, ◌||◌, ◌&&◌, List, [], ◌∷◌, get_or, replicate,
}
use llvm_scheduling_reg_pres.Base as B

abbrev pub BitVec : Type 0
BitVec = List Bool

abbrev pub test : BitVec → ℕ → Bool
test bits i = get_or bits i false

abbrev pub set : BitVec → ℕ → BitVec
set bits i = B.set bits i true

abbrev pub reset : BitVec → ℕ → BitVec
reset bits i = B.set bits i false

-- The number of bits set.
abbrev pub count : BitVec → ℕ
count [] = 0
count (true ∷ bits) = suc (count bits)
count (false ∷ bits) = count bits

-- BitVector(n, false) and BitVector(n, true)
abbrev pub zeros : ℕ → BitVec
zeros n = replicate n false

abbrev pub ones : ℕ → BitVec
ones n = replicate n true

-- a |= b, which grows `a` to the length of `b`.
abbrev pub or_bits : BitVec → BitVec → BitVec
or_bits [] ys = ys
or_bits (x ∷ xs) [] = x ∷ xs
or_bits (x ∷ xs) (y ∷ ys) = (x || y) ∷ or_bits xs ys

-- a &= b, which clears what lies beyond `b`.
abbrev pub and_bits : BitVec → BitVec → BitVec
and_bits [] ys = []
and_bits (x ∷ xs) [] = false ∷ and_bits xs []
and_bits (x ∷ xs) (y ∷ ys) = (x && y) ∷ and_bits xs ys

-- a.reset(b)
abbrev pub minus_bits : BitVec → BitVec → BitVec
minus_bits [] ys = []
minus_bits (x ∷ xs) [] = x ∷ xs
minus_bits (x ∷ xs) (y ∷ ys) = (x && not y) ∷ minus_bits xs ys

-- a.flip()
abbrev pub flip_bits : BitVec → BitVec
flip_bits [] = []
flip_bits (x ∷ xs) = not x ∷ flip_bits xs

-- a == b, which compares the lengths too.
abbrev pub same_bits : BitVec → BitVec → Bool
same_bits [] [] = true
same_bits (true ∷ xs) (true ∷ ys) = same_bits xs ys
same_bits (false ∷ xs) (false ∷ ys) = same_bits xs ys
same_bits _ _ = false
