-- ===== src/Legality/Order.antt =====
-- What a rebuilt block has in common with the block: the instructions, the places of the anchors,
-- and every order that the schedule does not turn round.
use llvm_scheduling_reg_pres.Base.{
  ℕ, ◌≡◌, refl, ap, sym, ◌∙◌, Bool, true, false, List, [], ◌∷◌, ◌++◌, ◌==◌, elem, Distinct, Before,
  Before-append_left, Before-append_right, Before-append_across, Before-append_cases, elem-append,
  append_assoc, append-nil, arith, if◌then◌else◌, length, Bool-cases, inl, inr, Perm, ==_iff,
  Option, none, some, map, Before-elem, Before-elem_right, replicate,
}
use mathlib.Core.List.{map-append}
use mathlib.Core.List.Perm
use llvm_scheduling_reg_pres.Ir.{Ir}
use llvm_scheduling_reg_pres.Legality.{anchor_of, ordered_from, reorder_block_within_regions}
use llvm_scheduling_reg_pres.Legality.Ordered.{
  ordered_from-Covers, Covers-elem, elem-ordered_from, Before-ordered_from,
}
use llvm_scheduling_reg_pres.Legality.Reference.{
  arranged, rebuilt, arranged-perm, arranged-elem, length-arranged, reorder_block-rebuilt,
}

abbrev pub blot : (ℕ → Bool) → ℕ → Option ℕ
blot anchor i = if anchor i then some i else none

-- The block with everything but the anchors blotted out.
abbrev pub anchors_only : (ℕ → Bool) → List ℕ → List (Option ℕ)
anchors_only anchor = map (blot anchor)

module _ (schedule : List ℕ) (anchor : ℕ → Bool) where
  rebuilt-perm : (is current : List ℕ) → Perm (current ++ is) (rebuilt schedule anchor is current)
  rebuilt-perm [] current = rw append-nil Perm.rfl
  rebuilt-perm (i ∷ is) current = elim (Bool-cases (anchor i)) [
    | inl e ↦ rw e (Perm.append (arranged-perm schedule current) (Perm.cons i (rebuilt-perm is [])))
    | inr e ↦ rw e (rw append_assoc at (rebuilt-perm is (current ++ i ∷ [])))
  ]

  rebuilt-elem :
      (k : ℕ) (is current : List ℕ)
      → elem k (rebuilt schedule anchor is current) ≡ elem k (current ++ is)
  rebuilt-elem k [] current = rw append-nil
  rebuilt-elem k (i ∷ is) current = elim (Bool-cases (anchor i)) [
    | inl e ↦ rw e (
        ground (
          arith,
          elem-append k (arranged schedule current) (i ∷ rebuilt schedule anchor is []),
          elem-append k current (i ∷ is),
          arranged-elem schedule k current,
          rebuilt-elem k is [],
        ))
    | inr e ↦ rw e (rw append_assoc at (rebuilt-elem k is (current ++ i ∷ [])))
  ]

  abbrev Movable : List ℕ → Type 0
  Movable xs = (k : ℕ) → elem k xs ≡ true → anchor k ≡ false

  anchors_only-Movable :
      (xs : List ℕ) → Movable xs → anchors_only anchor xs ≡ replicate (length xs) none
  anchors_only-Movable [] m = refl
  anchors_only-Movable (x ∷ xs) m =
      rw (m x (ground arith))
        (ap (λ r. none ∷ r) (anchors_only-Movable xs (λ k e. m k (ground arith))))

  anchors_only-arranged :
      (run : List ℕ)
      → Movable run
      → anchors_only anchor (arranged schedule run) ≡ anchors_only anchor run
  anchors_only-arranged run m =
      anchors_only-Movable (arranged schedule run)
        (λ k e. m k (sym (arranged-elem schedule k run) ∙ e))
      ∙ ap (λ n. replicate n none) (length-arranged schedule run)
      ∙ sym (anchors_only-Movable run m)

  Movable-snoc :
      (i : ℕ) (current : List ℕ) → anchor i ≡ false → Movable current → Movable (current ++ i ∷ [])
  Movable-snoc i current e m k h = elim (Bool-cases (k == i)) [
    | inl same ↦ rw ((==_iff k i).0 same) e
    | inr other ↦ m k (ground (arith, elem-append k current (i ∷ [])))
  ]

  rebuilt-anchors_only :
      (is current : List ℕ)
      → Movable current
      → anchors_only anchor (rebuilt schedule anchor is current)
        ≡ anchors_only anchor (current ++ is)
  rebuilt-anchors_only [] current m = rw append-nil
  rebuilt-anchors_only (i ∷ is) current m = elim (Bool-cases (anchor i)) [
    | inl e ↦
        let rest = rebuilt schedule anchor is [] in
        let ih = rebuilt-anchors_only is [] (λ k h. absurd (ground arith)) in
        rw e (
          map-append (blot anchor) (arranged schedule current) (i ∷ rest)
          ∙ cc (anchors_only-arranged current m, ih)
          ∙ sym (map-append (blot anchor) current (i ∷ is)))
    | inr e ↦ rw e (
        rw append_assoc at
          (rebuilt-anchors_only is (current ++ i ∷ []) (Movable-snoc i current e m)))
  ]

  module _ (nodup : Distinct schedule) (a b : ℕ)
      (kept : elem b schedule ≡ true → Before schedule a b) where
    arranged-Before : (run : List ℕ) → Before run a b → Before (arranged schedule run) a b
    unfolding arranged
    arranged-Before run h =
        elim (Bool-cases (length (ordered_from run [] schedule) == length run)) [
          | inr e ↦ rw e h
          | inl e ↦
              let c = ordered_from-Covers run schedule ((==_iff _ _).0 e) in
              let a_in = Before-elem a b run h in
              let b_in = Before-elem_right a b run h in
              let listed = Covers-elem b _ run c b_in in
              let scheduled : elem b schedule ≡ true =
                ground (arith, elem-ordered_from b run [] schedule) in
              rw e (
                Before-ordered_from a b run [] schedule nodup (kept scheduled) (ground arith)
                  (ground arith))
        ]

    Before-closed :
        (i : ℕ) (current is rest : List ℕ)
        → (elem b rest ≡ elem b is)
        → (Before is a b → Before rest a b)
        → Before (current ++ i ∷ is) a b
        → Before (arranged schedule current ++ i ∷ rest) a b
    Before-closed i current is rest same ih h =
        let run = arranged schedule current in
        elim (Before-append_cases a b current (i ∷ is) h) [
          | inl p ↦ Before-append_left a b run (i ∷ rest) (arranged-Before current p)
          | inr (inl p) ↦
              Before-append_across a b run (i ∷ rest) (arranged-elem schedule a current ∙ p.0)
                (ground arith)
          | inr (inr (inl p)) ↦ Before-append_right a b run (i ∷ rest) (inl (p.0, same ∙ p.1))
          | inr (inr (inr p)) ↦ Before-append_right a b run (i ∷ rest) (inr (ih p))
        ]

    rebuilt-Before :
        (is current : List ℕ)
        → Before (current ++ is) a b
        → Before (rebuilt schedule anchor is current) a b
    rebuilt-Before [] current h = rw append-nil at h
    rebuilt-Before (i ∷ is) current h = elim (Bool-cases (anchor i)) [
      | inr e ↦ rw e (rebuilt-Before is (current ++ i ∷ []) (rw append_assoc h))
      | inl e ↦ rw e (
          Before-closed i current is (rebuilt schedule anchor is []) (rebuilt-elem b is [])
            (rebuilt-Before is []) h)
    ]

module _ (ir : Ir) (schedule block : List ℕ) (nodup : Distinct block) where
  -- Reordering a block that holds no instruction twice neither loses nor makes up an instruction.
  pub reorder_block-perm : Perm block (reorder_block_within_regions ir schedule block)
  reorder_block-perm =
      rw (reorder_block-rebuilt ir schedule block nodup)
        (rebuilt-perm schedule (anchor_of ir) block [])

  -- Every anchor keeps its index in the block, whatever the schedule says: the blocks before and
  -- after agree once all instructions that are no anchors are blotted out.
  pub reorder_block-anchors_only :
      anchors_only (anchor_of ir) (reorder_block_within_regions ir schedule block)
      ≡ anchors_only (anchor_of ir) block
  reorder_block-anchors_only =
      rw (reorder_block-rebuilt ir schedule block nodup)
        (rebuilt-anchors_only schedule (anchor_of ir) block [] (λ k h. absurd (ground arith)))

-- An instruction that stands before another one in the block stands before it afterwards, if the
-- schedule, should it name the second one, names the first one before it.
pub reorder_block-Before :
    (ir : Ir) (schedule block : List ℕ) (a b : ℕ)
    → Distinct block
    → Distinct schedule
    → (elem b schedule ≡ true → Before schedule a b)
    → Before block a b
    → Before (reorder_block_within_regions ir schedule block) a b
reorder_block-Before ir schedule block a b nodup once kept h =
    rw (reorder_block-rebuilt ir schedule block nodup)
      (rebuilt-Before schedule (anchor_of ir) once a b kept block [] h)
