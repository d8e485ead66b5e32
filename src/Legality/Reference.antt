-- ===== src/Legality/Reference.antt =====
-- reorderBlockWithinRegions against a reference that rebuilds the block: each maximal run of
-- movable instructions in front of an anchor is replaced whole, and nothing else changes.
use llvm_scheduling_reg_pres.Base.{
  ℕ, ◌≡◌, refl, ap, subst, ◌∙◌, Bool, true, false, List, [], ◌∷◌, ◌++◌, ◌==◌, elem, Distinct,
  Distinct-right, Distinct-apart, elem-append, append_assoc, append-nil, arith, if◌then◌else◌,
  length, Bool-cases, inl, inr, Perm, ==_iff, some, elem-ne,
}
use mathlib.Core.List.Perm
use llvm_scheduling_reg_pres.Ir.{Ir}
use llvm_scheduling_reg_pres.Legality.{
  regions_from, ordered_from, reorder_region, reorder_regions, anchor_of,
  reorder_block_within_regions,
}
use llvm_scheduling_reg_pres.Legality.Ordered.{Covers-perm, Covers-elem, ordered_from-Covers}
use llvm_scheduling_reg_pres.Legality.Moves.{move_all-region}

module _ (schedule : List ℕ) where
  -- A run in the order of the schedule, or as it is if the schedule lacks some of it.
  unfoldable pub arranged : List ℕ → List ℕ
  arranged run =
      if length (ordered_from run [] schedule) == length run
      then ordered_from run [] schedule
      else run

  -- The block from an instruction on, behind the run `current`.
  abbrev pub rebuilt : (anchor : ℕ → Bool) → List ℕ → List ℕ → List ℕ
  rebuilt anchor [] current = current
  rebuilt anchor (i ∷ is) current =
      let grown = rebuilt anchor is (current ++ i ∷ []) in
      let closed = arranged current ++ i ∷ rebuilt anchor is [] in
      if anchor i then closed else grown

  pub arranged-perm : (run : List ℕ) → Perm run (arranged run)
  unfolding arranged
  arranged-perm run = elim (Bool-cases (length (ordered_from run [] schedule) == length run)) [
    | inl e ↦ rw e (Covers-perm _ run (ordered_from-Covers run schedule ((==_iff _ _).0 e)))
    | inr e ↦ rw e Perm.rfl
  ]

  pub arranged-elem : (i : ℕ) (run : List ℕ) → elem i (arranged run) ≡ elem i run
  unfolding arranged
  arranged-elem i run = elim (Bool-cases (length (ordered_from run [] schedule) == length run)) [
    | inl e ↦
        let c = ordered_from-Covers run schedule ((==_iff _ _).0 e) in
        rw e (
          ground (
            arith,
            Covers-elem i _ run c,
            c.within i,
            Bool-cases (elem i run),
            Bool-cases (elem i (ordered_from run [] schedule)),
          ))
    | inr e ↦ rw e
  ]

  pub length-arranged : (run : List ℕ) → length (arranged run) ≡ length run
  unfolding arranged
  length-arranged run = ground arith

  -- One round of the second loop.
  reorder_region-arranged :
      (b : ℕ) (run pre post : List ℕ)
      → ((x : ℕ) → elem x run ≡ true → elem x pre ≡ false)
      → elem b pre ≡ false
      → elem b run ≡ false
      → reorder_region schedule
          (record { members = run; boundary = some b })
          (pre ++ (run ++ b ∷ post))
        ≡ pre ++ (arranged run ++ b ∷ post)
  unfolding reorder_region arranged
  reorder_region-arranged b run pre post apart hp hr =
      elim (Bool-cases (length (ordered_from run [] schedule) == length run)) [
        | inl e ↦ rw e (
            move_all-region (ordered_from run [] schedule) run b pre post
              (ordered_from-Covers run schedule ((==_iff _ _).0 e)) apart hp hr)
        | inr e ↦ rw e
      ]

  -- The invariant of the two loops: the block is what was rebuilt, then the current run, then the
  -- rest.
  record Layout (pre current rest : List ℕ) : Type 0 where
    distinct : Distinct (current ++ rest)
    apart : (x : ℕ) → elem x (current ++ rest) ≡ true → elem x pre ≡ false

  Layout-closed :
      (i : ℕ) (pre current rest : List ℕ)
      → Layout pre current (i ∷ rest)
      → Layout (pre ++ (arranged current ++ i ∷ [])) [] rest
  Layout-closed i pre current rest l = record {
    distinct = (Distinct-right current (i ∷ rest) l.distinct).1;
    apart = λ x m.
        let d = Distinct-right current (i ∷ rest) l.distinct in
        ground (
          arith,
          elem-append x pre (arranged current ++ i ∷ []),
          elem-append x (arranged current) (i ∷ []),
          arranged-elem x current,
          Distinct-apart x current (i ∷ rest) l.distinct,
          l.apart x,
          elem-append x current (i ∷ rest),
          elem-ne x i rest m d.0,
        );
  }

  Layout-grown :
      (i : ℕ) (pre current rest : List ℕ)
      → Layout pre current (i ∷ rest)
      → Layout pre (current ++ i ∷ []) rest
  Layout-grown i pre current rest l = record {
    distinct = rw append_assoc l.distinct;
    apart = λ x m. l.apart x (rw append_assoc at m);
  }

  arranged-nil : arranged [] ≡ []
  arranged-nil = of_length (arranged []) (length-arranged [])
    where
      of_length : (xs : List ℕ) → length xs ≡ 0 → xs ≡ []
      of_length [] h = refl
      of_length (x ∷ xs) h = absurd (omega arith)

  snoc_regroup : (i : ℕ) (p q r : List ℕ) → (p ++ (q ++ i ∷ [])) ++ r ≡ p ++ (q ++ i ∷ r)
  snoc_regroup i p q r = simp append_assoc

  module _ (anchor : ℕ → Bool) where
    -- The block after the second loop has gone through the regions found from here on.
    abbrev Agrees : List ℕ → List ℕ → List ℕ → Type 0
    Agrees rest current pre =
        reorder_regions schedule (regions_from anchor rest current) (pre ++ (current ++ rest))
        ≡ pre ++ rebuilt anchor rest current

    Agrees-end : (current pre : List ℕ) → Agrees [] current pre
    unfolding regions_from reorder_regions reorder_region
    Agrees-end [] pre = refl
    Agrees-end (c ∷ current) pre = ground (arith, append-nil {0} current)

    Agrees-closed :
        (i : ℕ) (rest current pre : List ℕ)
        → anchor i ≡ true
        → Layout pre current (i ∷ rest)
        → Agrees rest [] (pre ++ (arranged current ++ i ∷ []))
        → Agrees (i ∷ rest) current pre
    unfolding regions_from reorder_regions
    Agrees-closed i rest [] pre a l ih =
        rw (a, arranged-nil)
          (subst
            (λ q.
              reorder_regions schedule (regions_from anchor rest []) q
              ≡ pre ++ i ∷ rebuilt anchor rest [])
            (snoc_regroup i pre [] rest)
            (rw arranged-nil at ih ∙ snoc_regroup i pre [] (rebuilt anchor rest [])))
    Agrees-closed i rest (c ∷ current) pre a l ih =
        let run = c ∷ current in
        rw a (
          ap (reorder_regions schedule (regions_from anchor rest [])) (
            reorder_region-arranged i run pre rest
              (λ x m. l.apart x (ground (arith, elem-append x run (i ∷ rest))))
              (l.apart i (ground (arith, elem-append i run (i ∷ rest))))
              (Distinct-apart i run (i ∷ rest) l.distinct (ground arith)))
          ∙ subst
              (λ q.
                reorder_regions schedule (regions_from anchor rest []) q
                ≡ pre ++ (arranged run ++ i ∷ rebuilt anchor rest []))
              (snoc_regroup i pre (arranged run) rest)
              (ih ∙ snoc_regroup i pre (arranged run) (rebuilt anchor rest [])))

    Agrees-grown :
        (i : ℕ) (rest current pre : List ℕ)
        → anchor i ≡ false
        → Agrees rest (current ++ i ∷ []) pre
        → Agrees (i ∷ rest) current pre
    unfolding regions_from
    Agrees-grown i rest current pre a ih = rw a (rw append_assoc at ih)

    Agrees-all : (rest current pre : List ℕ) → Layout pre current rest → Agrees rest current pre
    Agrees-all [] current pre l = Agrees-end current pre
    Agrees-all (i ∷ rest) current pre l = elim (Bool-cases (anchor i)) [
      | inl a ↦ Agrees-closed i rest current pre a l (
          Agrees-all rest [] (pre ++ (arranged current ++ i ∷ []))
            (Layout-closed i pre current rest l))
      | inr a ↦
          Agrees-grown i rest current pre a
            (Agrees-all rest (current ++ i ∷ []) pre (Layout-grown i pre current rest l))
    ]

-- For a block that holds no instruction twice, moving the members of each region in front of its
-- boundary rebuilds the block run by run.
pub reorder_block-rebuilt :
    (ir : Ir) (schedule block : List ℕ)
    → Distinct block
    → reorder_block_within_regions ir schedule block ≡ rebuilt schedule (anchor_of ir) block []
unfolding reorder_block_within_regions
reorder_block-rebuilt ir schedule block d =
    Agrees-all schedule (anchor_of ir) block [] [] (record { distinct = d; apart = λ x m. refl })
