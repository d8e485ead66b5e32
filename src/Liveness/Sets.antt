-- ===== src/Liveness/Sets.antt =====
-- The use and def sets of a block against its instructions.
use llvm_scheduling_reg_pres.Base.{
  ℕ, ◌<◌, ◌≡◌, refl, ap, ◌∙◌, Bool, false, not, ◌||◌, ◌&&◌, List, [], ◌∷◌, Option, none, some,
  arith, elem, length, ◌==◌, if◌then◌else◌, ==_iff, Bool-cases, inl, inr, Option-cases,
}
use llvm_scheduling_reg_pres.Ir.{Ir, Value, instruction}
use llvm_scheduling_reg_pres.Ir.Values.{ValueIndex}
use llvm_scheduling_reg_pres.Ir.Function.{Function}
use llvm_scheduling_reg_pres.Ir.BitVec.{BitVec, test}
use llvm_scheduling_reg_pres.Ir.Subset.{length-set, test-set}
use llvm_scheduling_reg_pres.Dataflow.Fill.{fill_at}
use llvm_scheduling_reg_pres.Liveness.{
  BlockStateLiveness, note_use, note_uses, note_def, scan_block, all_zeros, first_states,
}

-- Is this value the one of index `idx`?
abbrev pub is_at : Option ℕ → ℕ → Bool
is_at none idx = false
is_at (some k) idx = k == idx

-- One of the operands is the value of this index.
abbrev pub reads : ValueIndex → ℕ → List Value → Bool
reads index idx [] = false
reads index idx (v ∷ vs) = is_at (index v) idx || reads index idx vs

-- The block computes the value.
abbrev pub defines : ValueIndex → ℕ → List ℕ → Bool
defines index idx [] = false
defines index idx (i ∷ is) = is_at (index (instruction i)) idx || defines index idx is

-- The block reads the value before it computes it, or without computing it.
abbrev pub exposed : Ir → ValueIndex → ℕ → List ℕ → Bool
exposed ir index idx [] = false
exposed ir index idx (i ∷ is) =
    reads index idx (ir i).operands
    || (not (is_at (index (instruction i)) idx) && exposed ir index idx is)

module _ (ir : Ir) (index : ValueIndex) (idx : ℕ) where
  length-note_use :
      (def : BitVec) (v : Value) (uses : BitVec) → length (note_use index def v uses) ≡ length uses
  length-note_use def v uses = elim (Option-cases (index v)) [
    | inl e ↦ rw (note_use, e) refl
    | inr (k, e) ↦ elim (Bool-cases (test def k)) [
      | inl d ↦ rw (note_use, e, d) refl
      | inr d ↦ rw (note_use, e, d) (length-set uses k)
    ]
  ]

  test-note_use :
      (def : BitVec) (v : Value) (uses : BitVec)
      → idx < length uses
      → test (note_use index def v uses) idx
        ≡ (test uses idx || (not (test def idx) && is_at (index v) idx))
  test-note_use def v uses h = elim (Option-cases (index v)) [
    | inl e ↦ rw (note_use, e) (ground arith)
    | inr (k, e) ↦ elim (Bool-cases (k == idx)) [
      | inl at ↦
          let is = (==_iff k idx).0 at in
          let same = ap (λ j. test def j) is in
          rw (note_use, e, at) (ground (arith, test-set uses k idx h))
      | inr at ↦ rw (note_use, e, at) (ground (arith, test-set uses k idx h))
    ]
  ]

  length-note_uses :
      (def : BitVec) (vs : List Value) (uses : BitVec)
      → length (note_uses index def vs uses) ≡ length uses
  length-note_uses def [] uses = refl
  length-note_uses def (v ∷ vs) uses =
      length-note_uses def vs (note_use index def v uses) ∙ length-note_use def v uses

  test-note_uses :
      (def : BitVec) (vs : List Value) (uses : BitVec)
      → idx < length uses
      → test (note_uses index def vs uses) idx
        ≡ (test uses idx || (not (test def idx) && reads index idx vs))
  test-note_uses def [] uses h = ground arith
  test-note_uses def (v ∷ vs) uses h =
      let same = length-note_use def v uses in
      let rest = test-note_uses def vs (note_use index def v uses) (omega (arith, same, h)) in
      let one = test-note_use def v uses h in ground arith

  length-note_def : (i : ℕ) (def : BitVec) → length (note_def index i def) ≡ length def
  length-note_def i def = elim (Option-cases (index (instruction i))) [
    | inl e ↦ rw (note_def, e) refl
    | inr (k, e) ↦ rw (note_def, e) (length-set def k)
  ]

  test-note_def :
      (i : ℕ) (def : BitVec)
      → idx < length def
      → test (note_def index i def) idx ≡ (test def idx || is_at (index (instruction i)) idx)
  test-note_def i def h = elim (Option-cases (index (instruction i))) [
    | inl e ↦ rw (note_def, e) (ground arith)
    | inr (k, e) ↦ rw (note_def, e) (ground (arith, test-set def k idx h))
  ]

  -- What the scan of a block makes of the sets that it starts with.
  pub record Scanned (width : ℕ) (is : List ℕ) (bs end : BlockStateLiveness) : Type 0 where
    pub same_in : end.in_set ≡ bs.in_set
    pub same_out : end.out_set ≡ bs.out_set
    pub wide_use : length end.use_set ≡ width
    pub wide_def : length end.def_set ≡ width
    pub used :
        idx < width
        → test end.use_set idx
          ≡ (test bs.use_set idx || (not (test bs.def_set idx) && exposed ir index idx is))
    pub defined : idx < width → test end.def_set idx ≡ (test bs.def_set idx || defines index idx is)

  pub scan_block-Scanned :
      (width : ℕ) (is : List ℕ) (bs : BlockStateLiveness)
      → length bs.use_set ≡ width
      → length bs.def_set ≡ width
      → Scanned width is bs (scan_block ir index is bs)
  unfolding scan_block
  scan_block-Scanned width [] bs u d = record {
    same_in = refl;
    same_out = refl;
    wide_use = u;
    wide_def = d;
    used = λ h. ground arith;
    defined = λ h. ground arith;
  }
  scan_block-Scanned width (i ∷ is) bs u d =
      let uses = note_uses index bs.def_set (ir i).operands bs.use_set in
      let def = note_def index i bs.def_set in
      let rest =
        scan_block-Scanned width is (record bs { use_set = uses; def_set = def })
          (length-note_uses bs.def_set (ir i).operands bs.use_set ∙ u)
          (length-note_def i bs.def_set ∙ d) in
      record {
        same_in = rest.same_in;
        same_out = rest.same_out;
        wide_use = rest.wide_use;
        wide_def = rest.wide_def;
        used = λ h.
            let one = test-note_uses bs.def_set (ir i).operands bs.use_set (omega (arith, h, u)) in
            let two = test-note_def i bs.def_set (omega (arith, h, d)) in
            let all = rest.used h in ground arith;
        defined = λ h.
            let two = test-note_def i bs.def_set (omega (arith, h, d)) in
            let all = rest.defined h in ground arith;
      }

module _ (f : Function) (index : ValueIndex) (width : ℕ) where
  -- The state of a block before the first pass.
  abbrev pub first_of : ℕ → BlockStateLiveness
  first_of b = scan_block f.ir index (f.contents b) (all_zeros width)

  pub first_states_at :
      (bs : List ℕ) (st : ℕ → BlockStateLiveness) (k : ℕ)
      → first_states f index width bs st k ≡ (if elem k bs then first_of k else st k)
  unfolding first_states
  first_states_at bs st k = fill_at first_of bs st k
