-- ===== src/Dataflow/Union.antt =====
-- The union of the vectors of some blocks.
use llvm_scheduling_reg_pres.Base.{
  ℕ, ◌≤◌, ◌≡◌, refl, sym, ap, ◌∙◌, true, List, [], ◌∷◌, ◌⊎◌, inl, inr, arith, elem, length,
  Bool-cases, ==_iff, ◌==◌,
}
use llvm_scheduling_reg_pres.Ir.BitVec.{BitVec, test, or_bits}
use llvm_scheduling_reg_pres.Ir.Subset.{
  SubBits, or_bits-SubBits, length-or_bits, length-or_bits-le, test-or_bits,
}

-- for (n : ns) acc |= V[n];
abbrev pub union_from : BitVec → (ℕ → BitVec) → List ℕ → BitVec
union_from acc V [] = acc
union_from acc V (n ∷ ns) = union_from (or_bits acc (V n)) V ns

pub union_from-SubBits :
    (ns : List ℕ) (acc acc' : BitVec) (V W : ℕ → BitVec)
    → SubBits acc acc'
    → ((k : ℕ) → SubBits (V k) (W k))
    → SubBits (union_from acc V ns) (union_from acc' W ns)
union_from-SubBits [] acc acc' V W h k = h
union_from-SubBits (n ∷ ns) acc acc' V W h k =
    union_from-SubBits ns (or_bits acc (V n)) (or_bits acc' (W n)) V W
      (or_bits-SubBits acc acc' (V n) (W n) h (k n)) k

pub length-union_from-le :
    (width : ℕ) (ns : List ℕ) (acc : BitVec) (V : ℕ → BitVec)
    → length acc ≤ width
    → ((k : ℕ) → length (V k) ≤ width)
    → length (union_from acc V ns) ≤ width
length-union_from-le width [] acc V h k = h
length-union_from-le width (n ∷ ns) acc V h k =
    length-union_from-le width ns (or_bits acc (V n)) V (length-or_bits-le width acc (V n) h (k n))
      k

pub length-union_from :
    (ns : List ℕ) (acc : BitVec) (V : ℕ → BitVec)
    → ((k : ℕ) → length (V k) ≤ length acc)
    → length (union_from acc V ns) ≡ length acc
length-union_from [] acc V k = refl
length-union_from (n ∷ ns) acc V k =
    let one = length-or_bits acc (V n) (k n) in
    length-union_from ns (or_bits acc (V n)) V (λ j. omega (arith, one, k j)) ∙ one

-- A bit of the union is in the first vector or in one of the others.
pub union_from-hit :
    (ns : List ℕ) (acc : BitVec) (V : ℕ → BitVec) (i : ℕ)
    → test (union_from acc V ns) i ≡ true
    → (test acc i ≡ true) ⊎ ((n : ℕ) × (elem n ns ≡ true) × (test (V n) i ≡ true))
union_from-hit [] acc V i h = inl h
union_from-hit (n ∷ ns) acc V i h = elim (union_from-hit ns (or_bits acc (V n)) V i h) [
  | inr (m, at, t) ↦ inr (m, ground arith, t)
  | inl t ↦ elim (Bool-cases (test acc i)) [
    | inl a ↦ inl a
    | inr a ↦ inr (n, ground arith, ground (arith, test-or_bits acc (V n) i))
  ]
]

pub union_from-acc :
    (ns : List ℕ) (acc : BitVec) (V : ℕ → BitVec) (i : ℕ)
    → test acc i ≡ true
    → test (union_from acc V ns) i ≡ true
union_from-acc [] acc V i h = h
union_from-acc (n ∷ ns) acc V i h =
    union_from-acc ns (or_bits acc (V n)) V i (ground (arith, test-or_bits acc (V n) i))

pub union_from-pass :
    (ns : List ℕ) (acc : BitVec) (V : ℕ → BitVec) (i n : ℕ)
    → elem n ns ≡ true
    → test (V n) i ≡ true
    → test (union_from acc V ns) i ≡ true
union_from-pass [] acc V i n m h = absurd (ground arith)
union_from-pass (k ∷ ns) acc V i n m h = elim (Bool-cases (n == k)) [
  | inl e ↦
      let here = ap (λ j. test (V j) i) (sym ((==_iff n k).0 e)) ∙ h in
      union_from-acc ns (or_bits acc (V k)) V i (ground (arith, test-or_bits acc (V k) i))
  | inr e ↦ union_from-pass ns (or_bits acc (V k)) V i n (ground arith) h
]
