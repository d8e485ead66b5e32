-- ===== src/Dominators/Meet.antt =====
-- The bits of newDom.
use llvm_scheduling_reg_pres.Base.{
  ℕ, ◌<◌, ◌≡◌, refl, sym, ap, ◌∙◌, Bool, true, false, ◌||◌, ◌&&◌, List, [], ◌∷◌, Option, none, some,
  elem, arith, length, if◌then◌else◌, ◌==◌, ==_iff, Bool-cases, Option-cases, inl, inr,
}
use llvm_scheduling_reg_pres.Ir.Function.{Function}
use llvm_scheduling_reg_pres.Ir.BitVec.{BitVec, test, zeros, ones, and_bits}
use llvm_scheduling_reg_pres.Ir.Count.{SubBits-bits, length-ones, test-ones}
use llvm_scheduling_reg_pres.Ir.Subset.{
  SubBits, SubBits-test, test-and_bits, length-and_bits, test-set, length-set, test-zeros,
  length-zeros, test_inside,
}
use llvm_scheduling_reg_pres.Dominators.{meet_doms, new_dom}

abbrev pub known : (ℕ → Option ℕ) → ℕ → Bool
known idx p = elim (idx p) [ none ↦ false | some _ ↦ true ]

-- A predecessor in the order.
abbrev pub some_known : (ℕ → Option ℕ) → List ℕ → Bool
some_known idx [] = false
some_known idx (p ∷ ps) = known idx p || some_known idx ps

-- All predecessors in the order have the bit.
abbrev pub all_have : (ℕ → Option ℕ) → (ℕ → BitVec) → ℕ → List ℕ → Bool
all_have idx V j [] = true
all_have idx V j (p ∷ ps) = (if known idx p then test (V p) j else true) && all_have idx V j ps

module _ (idx : ℕ → Option ℕ) (V : ℕ → BitVec) where
  length-meet_doms :
      (ps : List ℕ) (acc : BitVec × Bool) → length (meet_doms idx V ps acc).0 ≡ length acc.0
  length-meet_doms [] acc = refl
  length-meet_doms (p ∷ ps) acc = elim (Option-cases (idx p)) [
    | inl e ↦ rw (meet_doms, e) (length-meet_doms ps acc)
    | inr (k, e) ↦
        rw (meet_doms, e)
          (length-meet_doms ps (and_bits acc.0 (V p), true) ∙ length-and_bits acc.0 (V p))
  ]

  test-meet_doms :
      (ps : List ℕ) (acc : BitVec × Bool) (j : ℕ)
      → test (meet_doms idx V ps acc).0 j ≡ (test acc.0 j && all_have idx V j ps)
  test-meet_doms [] acc j = ground arith
  test-meet_doms (p ∷ ps) acc j = elim (Option-cases (idx p)) [
    | inl e ↦ rw (meet_doms, e) (let rest = test-meet_doms ps acc j in ground arith)
    | inr (k, e) ↦
        let rest = test-meet_doms ps (and_bits acc.0 (V p), true) j in
        let one = test-and_bits acc.0 (V p) j in rw (meet_doms, e) (ground arith)
  ]

  known-meet_doms :
      (ps : List ℕ) (acc : BitVec × Bool)
      → (meet_doms idx V ps acc).1 ≡ (acc.1 || some_known idx ps)
  known-meet_doms [] acc = ground arith
  known-meet_doms (p ∷ ps) acc = elim (Option-cases (idx p)) [
    | inl e ↦ rw (meet_doms, e) (let rest = known-meet_doms ps acc in ground arith)
    | inr (k, e) ↦
        rw (meet_doms, e)
          (let rest = known-meet_doms ps (and_bits acc.0 (V p), true) in ground arith)
  ]

pub all_have_mono :
    (idx : ℕ → Option ℕ) (V W : ℕ → BitVec) (j : ℕ) (ps : List ℕ)
    → ((k : ℕ) → test (V k) j ≡ true → test (W k) j ≡ true)
    → all_have idx V j ps ≡ true
    → all_have idx W j ps ≡ true
all_have_mono idx V W j [] h a = refl
all_have_mono idx V W j (p ∷ ps) h a =
    let rest = all_have_mono idx V W j ps h (ground arith) in
    elim (Bool-cases (known idx p)) [
      | inl e ↦ let here = h p (ground arith) in rw (e, here) rest
      | inr e ↦ rw e rest
    ]

-- Some predecessor in the order lacks the bit.
pub all_have-false :
    (idx : ℕ → Option ℕ) (V : ℕ → BitVec) (j : ℕ) (ps : List ℕ)
    → all_have idx V j ps ≡ false
    → (p : ℕ) × (elem p ps ≡ true) × (known idx p ≡ true) × (test (V p) j ≡ false)
all_have-false idx V j [] h = absurd (ground arith)
all_have-false idx V j (p ∷ ps) h = elim (Bool-cases (all_have idx V j ps)) [
  | inr e ↦ let (q, m, k, t) = all_have-false idx V j ps e in (q, ground arith, k, t)
  | inl e ↦ elim (Bool-cases (known idx p)) [
    | inl k ↦ (p, ground arith, k, ground arith)
    | inr k ↦ absurd (ground arith)
  ]
]

pub all_have_lacks :
    (idx : ℕ → Option ℕ) (V : ℕ → BitVec) (j p : ℕ) (ps : List ℕ)
    → elem p ps ≡ true
    → known idx p ≡ true
    → test (V p) j ≡ false
    → all_have idx V j ps ≡ false
all_have_lacks idx V j p [] m k t = absurd (ground arith)
all_have_lacks idx V j p (q ∷ ps) m k t = elim (Bool-cases (p == q)) [
  | inl e ↦
      let is = (==_iff p q).0 e in
      let same_known = ap (λ x. known idx x) is in
      let same_bit = ap (λ x. test (V x) j) is in
      let q_known : known idx q ≡ true = sym same_known ∙ k in
      let q_clear : test (V q) j ≡ false = sym same_bit ∙ t in rw (q_known, q_clear) refl
  | inr e ↦ let rest = all_have_lacks idx V j p ps (ground arith) k t in ground arith
]

pub some_known-elem :
    (idx : ℕ → Option ℕ) (p : ℕ) (ps : List ℕ)
    → elem p ps ≡ true
    → known idx p ≡ true
    → some_known idx ps ≡ true
some_known-elem idx p [] m k = absurd (ground arith)
some_known-elem idx p (q ∷ ps) m k = elim (Bool-cases (p == q)) [
  | inl e ↦ let same = ap (λ x. known idx x) ((==_iff p q).0 e) in ground arith
  | inr e ↦ let rest = some_known-elem idx p ps (ground arith) k in ground arith
]

module _ (f : Function) (idx : ℕ → Option ℕ) (width i b : ℕ) where
  pub length-new_dom : (V : ℕ → BitVec) → length (new_dom f idx width i b V) ≡ width
  length-new_dom V =
      let met = meet_doms idx V (f.predecessors b) (ones width, false) in
      length-set (if met.1 then met.0 else zeros width) i ∙ elim (Bool-cases met.1) [
        | inl e ↦
            rw e (length-meet_doms idx V (f.predecessors b) (ones width, false) ∙ length-ones width)
        | inr e ↦ rw e (length-zeros width)
      ]

  pub test-new_dom :
      (V : ℕ → BitVec) (j : ℕ)
      → j < width
      → test (new_dom f idx width i b V) j
        ≡ ((i == j) || (some_known idx (f.predecessors b) && all_have idx V j (f.predecessors b)))
  test-new_dom V j h =
      let met = meet_doms idx V (f.predecessors b) (ones width, false) in
      let k = known-meet_doms idx V (f.predecessors b) (ones width, false) in
      let t = test-meet_doms idx V (f.predecessors b) (ones width, false) j in
      let o = test-ones width j h in
      let z = test-zeros width j in
      let l = length-meet_doms idx V (f.predecessors b) (ones width, false) ∙ length-ones width in
      elim (Bool-cases met.1) [
        | inl e ↦ rw e (test-set met.0 i j (omega (arith, l, h)) ∙ ground arith)
        | inr e ↦
            let lz = length-zeros width in
            rw e (test-set (zeros width) i j (omega (arith, lz, h)) ∙ ground arith)
      ]

  pub new_dom-SubBits :
      (V W : ℕ → BitVec)
      → ((k : ℕ) → SubBits (V k) (W k))
      → SubBits (new_dom f idx width i b V) (new_dom f idx width i b W)
  new_dom-SubBits V W h =
      SubBits-bits (new_dom f idx width i b V) (new_dom f idx width i b W)
        (length-new_dom V ∙ sym (length-new_dom W))
        (λ j t.
          let long = length-new_dom V in
          let top = test_inside (new_dom f idx width i b V) j t in
          let small : j < width = omega (arith, long, top) in
          let at_v = test-new_dom V j small in
          let at_w = test-new_dom W j small in
          elim (Bool-cases (i == j)) [
            | inl e ↦ ground arith
            | inr e ↦
                let grown =
                  all_have_mono idx V W j (f.predecessors b) (λ k. SubBits-test (V k) (W k) j (h k))
                    (ground arith) in
                ground arith
          ])
