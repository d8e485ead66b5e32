-- ===== src/Reaching/Collect.antt =====
-- The gen and kill sets of a block against its instructions.
use llvm_scheduling_reg_pres.Base.{
  ℕ, zero, suc, ◌+◌, ◌<◌, ◌≡◌, refl, sym, ap, ◌∙◌, Bool, true, false, not, ◌||◌, ◌&&◌, List, [],
  ◌∷◌, none, some, arith, elem, Distinct, length, ◌==◌, ==_iff, Bool-cases, inl, inr, Option-cases,
  get_elem?, get_elem?-elem, get_elem?-lt, index_of-elem,
}
use llvm_scheduling_reg_pres.Ir.{Ir}
use llvm_scheduling_reg_pres.Ir.BitVec.{BitVec, test, set}
use llvm_scheduling_reg_pres.Ir.Subset.{length-set, test-set}
use llvm_scheduling_reg_pres.Reaching.Sets.{
  BlockStateReaching, Names, same_name, find_from, kill_others, note_definition, collect,
}

-- Some other instruction of the block that makes a value has the name of `d`.
abbrev pub renames : Ir → Names → ℕ → List ℕ → Bool
renames ir names d [] = false
renames ir names d (i ∷ is) =
    (not (ir i).is_void && (not (i == d) && same_name (names i) (names d))) || renames ir names d is

-- The item at position `idx`, where the list starts at position `i`, has the name of `d`.
abbrev named_from : Names → ℕ → ℕ → List ℕ → ℕ → Bool
named_from names d i [] idx = false
named_from names d i (u ∷ us) idx =
    ((i == idx) && same_name (names d) (names u)) || named_from names d (suc i) us idx

module _ (names : Names) where
  named_from_before :
      (d i : ℕ) (us : List ℕ) (idx : ℕ) → idx < i → named_from names d i us idx ≡ false
  named_from_before d i [] idx h = refl
  named_from_before d i (u ∷ us) idx h =
      let rest = named_from_before d (suc i) us idx (omega (arith, h)) in ground arith

  named_from-get_elem? :
      (d i : ℕ) (us : List ℕ) (k e : ℕ)
      → get_elem? us k ≡ some e
      → named_from names d i us (i + k) ≡ same_name (names d) (names e)
  named_from-get_elem? d i [] k e at = absurd (ground arith)
  named_from-get_elem? d i (u ∷ us) zero e at =
      let later = named_from_before d (suc i) us (i + 0) (omega arith) in
      let same = ap (λ o. elim o [ none ↦ none | some x ↦ names x ]) at in
      let here : (i == i + 0) ≡ true = ground arith in rw (here, later, sym same) (ground arith)
  named_from-get_elem? d i (u ∷ us) (suc k) e at =
      let rest = named_from-get_elem? d (suc i) us k e at in
      let here : (i == i + suc k) ≡ false = ground arith in
      let shift : suc i + k ≡ i + suc k = omega arith in
      rw here (ap (λ j. named_from names d (suc i) us j) (sym shift) ∙ rest)

  length-kill_others :
      (k d i : ℕ) (us : List ℕ) (kill : BitVec)
      → length (kill_others names k d i us kill) ≡ length kill
  length-kill_others k d i [] kill = refl
  length-kill_others k d i (u ∷ us) kill =
      let one = length-set kill i in
      elim (Bool-cases (i == k)) [
        | inl e ↦ rw e (length-kill_others k d (suc i) us kill)
        | inr e ↦ elim (Bool-cases (same_name (names d) (names u))) [
          | inl s ↦ rw (e, s) (length-kill_others k d (suc i) us (set kill i) ∙ one)
          | inr s ↦ rw (e, s) (length-kill_others k d (suc i) us kill)
        ]
      ]

  test-kill_others :
      (k d i : ℕ) (us : List ℕ) (kill : BitVec) (idx : ℕ)
      → idx < length kill
      → test (kill_others names k d i us kill) idx
        ≡ (test kill idx || (not (idx == k) && named_from names d i us idx))
  test-kill_others k d i [] kill idx h = ground arith
  test-kill_others k d i (u ∷ us) kill idx h =
      let long = length-set kill i in
      let one = test-set kill i idx h in
      elim (Bool-cases (i == k)) [
        | inl e ↦ rw e (let rest = test-kill_others k d (suc i) us kill idx h in ground arith)
        | inr e ↦ elim (Bool-cases (same_name (names d) (names u))) [
          | inl s ↦
              rw (e, s)
                (let rest =
                    test-kill_others k d (suc i) us (set kill i) idx (omega (arith, long, h)) in
                  ground arith)
          | inr s ↦
              rw (e, s) (let rest = test-kill_others k d (suc i) us kill idx h in ground arith)
        ]
      ]

-- The same `in` and `out` sets, and no other lengths.
pub record Framed (bs end : BlockStateReaching) : Type 0 where
  pub same_in : end.in_set ≡ bs.in_set
  pub same_out : end.out_set ≡ bs.out_set
  pub wide_gen : length end.gen_set ≡ length bs.gen_set
  pub wide_kill : length end.kill_set ≡ length bs.kill_set

Framed-refl : (bs : BlockStateReaching) → Framed bs bs
Framed-refl bs = record { same_in = refl; same_out = refl; wide_gen = refl; wide_kill = refl }

Framed-trans : (a b c : BlockStateReaching) → Framed a b → Framed b c → Framed a c
Framed-trans a b c x y = record {
  same_in = y.same_in ∙ x.same_in;
  same_out = y.same_out ∙ x.same_out;
  wide_gen = y.wide_gen ∙ x.wide_gen;
  wide_kill = y.wide_kill ∙ x.wide_kill;
}

module _ (names : Names) (universe : List ℕ) where
  note_definition-Framed :
      (i : ℕ) (bs : BlockStateReaching) → Framed bs (note_definition names universe i bs)
  note_definition-Framed i bs = elim (Option-cases (find_from 0 universe i)) [
    | inl e ↦ rw (note_definition, e) (Framed-refl bs)
    | inr (k, e) ↦
        rw (note_definition, e)
          (record {
            same_in = refl;
            same_out = refl;
            wide_gen = length-set bs.gen_set k;
            wide_kill = length-kill_others names k i 0 universe bs.kill_set;
          })
  ]

  pub collect-Framed :
      (ir : Ir) (is : List ℕ) (bs : BlockStateReaching)
      → Framed bs (collect ir names universe is bs)
  unfolding collect
  collect-Framed ir [] bs = Framed-refl bs
  collect-Framed ir (i ∷ is) bs = elim (Bool-cases (ir i).is_void) [
    | inl v ↦ rw v (collect-Framed ir is bs)
    | inr v ↦
        let note = note_definition names universe i bs in
        rw v (
          Framed-trans bs note (collect ir names universe is note) (note_definition-Framed i bs)
            (collect-Framed ir is note))
  ]

find_from-get_elem? :
    (us : List ℕ) (i k d : ℕ)
    → Distinct us
    → get_elem? us k ≡ some d
    → find_from i us d ≡ some (i + k)
find_from-get_elem? [] i k d x at = absurd (ground arith)
find_from-get_elem? (u ∷ us) i zero d x at =
    let same : (u == d) ≡ true = ground arith in rw same (ap some (omega arith))
find_from-get_elem? (u ∷ us) i (suc k) d x at =
    let there = get_elem?-elem us k d at in
    let other : (u == d) ≡ false = elim (Bool-cases (u == d)) [
      | inl e ↦ absurd (let same = ap (λ j. elem j us) ((==_iff u d).0 e) in ground (arith, x.0))
      | inr e ↦ e
    ] in
    rw other (find_from-get_elem? us (suc i) k d x.1 at ∙ ap some (omega arith))

module _ (ir : Ir) (names : Names) (universe : List ℕ) (distinct : Distinct universe) (idx d : ℕ)
    (at : get_elem? universe idx ≡ some d) where
  same_place : (k i : ℕ) → get_elem? universe k ≡ some i → (k == idx) ≡ (i == d)
  same_place k i h = elim (Bool-cases (i == d)) [
    | inl e ↦
        let is = (==_iff i d).0 e in
        let one = find_from-get_elem? universe 0 k i distinct h in
        let two = find_from-get_elem? universe 0 idx d distinct at in
        let same = ap (λ j. find_from 0 universe j) is in ground arith
    | inr e ↦ elim (Bool-cases (k == idx)) [
      | inl s ↦
          absurd (let look = ap (λ j. get_elem? universe j) ((==_iff k idx).0 s) in ground arith)
      | inr s ↦ s ∙ sym e
    ]
  ]

  -- What the scan of a block makes of the sets that it starts with.
  pub record Collected (is : List ℕ) (bs end : BlockStateReaching) : Type 0 where
    pub made : test end.gen_set idx ≡ (test bs.gen_set idx || elem d is)
    pub killed : test end.kill_set idx ≡ (test bs.kill_set idx || renames ir names d is)

  module _ (keeps : (ir d).is_void ≡ false) (i : ℕ) (is : List ℕ) (bs : BlockStateReaching)
      (g : length bs.gen_set ≡ length universe) (k : length bs.kill_set ≡ length universe) where
    Collected-void :
        (ir i).is_void ≡ true
        → (end : BlockStateReaching) → Collected is bs end
        → Collected (i ∷ is) bs end
    Collected-void v end c = record {
      made =
          let other : (d == i) ≡ false = elim (Bool-cases (d == i)) [
            | inl e ↦
                absurd (let same = ap (λ j. (ir j).is_void) ((==_iff d i).0 e) in ground arith)
            | inr e ↦ e
          ] in
          let rest = c.made in ground arith;
      killed = let rest = c.killed in ground arith;
    }

    module _ (v : (ir i).is_void ≡ false) (inside : elem i universe ≡ true) where
      place : (p : ℕ) × (get_elem? universe p ≡ some i)
      place = index_of-elem universe i inside

      note_definition_at : note_definition names universe i bs ≡ record bs {
        gen_set = set bs.gen_set place.0;
        kill_set = kill_others names place.0 i 0 universe bs.kill_set;
      }
      note_definition_at =
          let found : find_from 0 universe i ≡ some place.0 =
            find_from-get_elem? universe 0 place.0 i distinct place.1 ∙ ap some (omega arith) in
          rw (note_definition, found) refl

      Collected-def :
          (end : BlockStateReaching)
          → Collected is (note_definition names universe i bs) end
          → Collected (i ∷ is) bs end
      Collected-def end c =
          let inside_idx = get_elem?-lt universe idx d at in
          let same = same_place place.0 i place.1 in
          let gen = test-set bs.gen_set place.0 idx (omega (arith, inside_idx, g)) in
          let kill =
            test-kill_others names place.0 i 0 universe bs.kill_set idx
              (omega (arith, inside_idx, k)) in
          let named = named_from-get_elem? names i 0 universe idx d at in
          let new_gen = ap (λ (b : BlockStateReaching). test b.gen_set idx) note_definition_at in
          let new_kill = ap (λ (b : BlockStateReaching). test b.kill_set idx) note_definition_at in
          record {
            made = let rest = c.made in ground arith;
            killed = let rest = c.killed in ground arith;
          }

  pub collect-Collected :
      (ir d).is_void ≡ false
      → (is : List ℕ) (bs : BlockStateReaching)
      → ((i : ℕ) → elem i is ≡ true → (ir i).is_void ≡ false → elem i universe ≡ true)
      → length bs.gen_set ≡ length universe
      → length bs.kill_set ≡ length universe
      → Collected is bs (collect ir names universe is bs)
  unfolding collect
  collect-Collected keeps [] bs inside g k = record { made = ground arith; killed = ground arith }
  collect-Collected keeps (i ∷ is) bs inside g k =
      let later = λ (j : ℕ) (m : elem j is ≡ true). inside j (ground arith) in
      elim (Bool-cases (ir i).is_void) [
        | inl v ↦ rw v (
            Collected-void keeps i is bs g k v (collect ir names universe is bs)
              (collect-Collected keeps is bs later g k))
        | inr v ↦
            let here = inside i (ground arith) v in
            let note = note_definition names universe i bs in
            let frame = note_definition-Framed names universe i bs in
            rw v (
              Collected-def keeps i is bs g k v here (collect ir names universe is note)
                (collect-Collected keeps is note later (frame.wide_gen ∙ g) (frame.wide_kill ∙ k)))
      ]
