-- ===== src/Dominators/Exists.antt =====
-- Every reachable block but the entry block has an immediate dominator.
use llvm_scheduling_reg_pres.Base.{
  ℕ, zero, suc, ◌+◌, ◌<◌, ◌≤◌, ◌≡◌, ◌≢◌, refl, sym, ap, subst, ◌∙◌, true, false, not, ◌&&◌, ◌⊎◌,
  List, [], ◌∷◌, none, some, elem, arith, get_elem?, get_elem?-elem, get_elem?-none, ◌==◌, ==_iff,
  ==_refl, Bool-cases, Option-cases, inl, inr, length, index_of-elem,
}
use llvm_scheduling_reg_pres.Ir.Function.{Function, blocks_of}
use llvm_scheduling_reg_pres.Ir.BitVec.{BitVec, test, count, same_bits}
use llvm_scheduling_reg_pres.Ir.Subset.{SubBits, same_bits-eq, test_inside}
use llvm_scheduling_reg_pres.Ir.Count.{SubBits-bits, SubBits-count-lt, count-le-length}
use llvm_scheduling_reg_pres.Trace.Reach.{Reachable, at_entry, along}
use llvm_scheduling_reg_pres.Reaching.Visits.{cfg_of}
use llvm_scheduling_reg_pres.Dominators.{
  DomInfo, compute_dominators, is_dominated_by_another, imm_dom, position,
}
use llvm_scheduling_reg_pres.Dominators.Step.{Avoids, from_entry, onward, ==_ne, idx, same_position}
use llvm_scheduling_reg_pres.Dominators.Correct.{Computed, computed, ListsPreds}
use llvm_scheduling_reg_pres.Trace.Paths.{IsCfg}
use llvm_scheduling_reg_pres.Dominators.Immediate.{
  elem-strict, strict, strict_dominator, idom_at, idom_entry, idom_is_strict, idom_is_closest,
}

module _ (f : Function) where
  Avoids-ne : (d b : ℕ) → Avoids f d b → b ≢ d
  Avoids-ne d b (from_entry ne) = ne
  Avoids-ne d b (onward a _ e ne h) = ne

  pub Avoids-entry : (b : ℕ) → Avoids f f.entry b → ⊥
  Avoids-entry b (from_entry ne) = ne refl
  Avoids-entry b (onward a _ e ne h) = Avoids-entry a h

  -- A path without `c` meets `d` or not.
  Avoids-through : (c d b : ℕ) → Avoids f c b → Avoids f c d ⊎ Avoids f d b
  Avoids-through c d b (from_entry ne) = elim (Bool-cases (f.entry == d)) [
    | inl e ↦ inl (subst (λ k. Avoids f c k) ((==_iff f.entry d).0 e) (from_entry ne))
    | inr e ↦ inr (from_entry (λ s. let yes = (==_iff f.entry d).1 s in absurd (ground arith)))
  ]
  Avoids-through c d b (onward a _ e ne h) = elim (Bool-cases (b == d)) [
    | inl s ↦ inl (subst (λ k. Avoids f c k) ((==_iff b d).0 s) (onward a b e ne h))
    | inr s ↦ elim (Avoids-through c d a h) [
      | inl x ↦ inl x
      | inr y ↦ inr (onward a b e (λ t. let yes = (==_iff b d).1 t in absurd (ground arith)) y)
    ]
  ]

  -- The first of two blocks that a path meets.
  met_first :
      (c d b : ℕ)
      → c ≢ d
      → Reachable (cfg_of f) b
      → (Avoids f c b × Avoids f d b) ⊎ (Avoids f d c ⊎ Avoids f c d)
  met_first c d b ne at_entry = elim (Bool-cases (f.entry == c)) [
    | inl e ↦
        let is = (==_iff f.entry c).0 e in
        inr (inl (subst (λ k. Avoids f d k) is (from_entry (λ s. ne (sym is ∙ s)))))
    | inr e ↦ elim (Bool-cases (f.entry == d)) [
      | inl s ↦
          let is = (==_iff f.entry d).0 s in
          inr (inr (subst (λ k. Avoids f c k) is (from_entry (λ t. ne (sym t ∙ is)))))
      | inr s ↦ inl (
        from_entry (λ t. let yes = (==_iff f.entry c).1 t in absurd (ground arith)),
        from_entry (λ t. let yes = (==_iff f.entry d).1 t in absurd (ground arith)),
      )
    ]
  ]
  met_first c d b ne (along a _ e r) = elim (met_first c d a ne r) [
    | inr done ↦ inr done
    | inl (x, y) ↦ elim (Bool-cases (b == c)) [
      | inl s ↦
          let is = (==_iff b c).0 s in
          inr (inl (subst (λ k. Avoids f d k) is (onward a b e (λ t. ne (sym is ∙ t)) y)))
      | inr s ↦ elim (Bool-cases (b == d)) [
        | inl t ↦
            let is = (==_iff b d).0 t in
            inr (inr (subst (λ k. Avoids f c k) is (onward a b e (λ u. ne (sym u ∙ is)) x)))
        | inr t ↦ inl (
          onward a b e (λ u. let yes = (==_iff b c).1 u in absurd (ground arith)) x,
          onward a b e (λ u. let yes = (==_iff b d).1 u in absurd (ground arith)) y,
        )
      ]
    ]
  ]

  -- Two blocks do not dominate each other.
  Avoids-either : (c d : ℕ) → c ≢ d → Reachable (cfg_of f) c → Avoids f d c ⊎ Avoids f c d
  Avoids-either c d ne r = elim (met_first c d c ne r) [
    | inl (x, y) ↦ absurd (Avoids-ne c c x refl)
    | inr done ↦ done
  ]

module _ (order : List ℕ) (dom : ℕ → BitVec) where
  -- Why the loop over d passes over a position.
  dominated_why :
      (d : ℕ) (ds : List ℕ)
      → is_dominated_by_another order dom d ds ≡ true
      → (j b : ℕ) × (elem j ds ≡ true)
        × (get_elem? order j ≡ some b)
        × ((j == d) ≡ false)
        × (test (dom b) d ≡ true)
  dominated_why d [] h = absurd (ground arith)
  dominated_why d (k ∷ ds) h = elim (Option-cases (get_elem? order k)) [
    | inl e ↦
        let (j, b, m, at, ne, t) = dominated_why d ds (rw (is_dominated_by_another, e) at h) in
        (j, b, ground arith, at, ne, t)
    | inr (b, e) ↦ elim (Bool-cases (not (k == d) && test (dom b) d)) [
      | inl y ↦ (k, b, ground arith, e, ground arith, ground arith)
      | inr n ↦
          let (j, c, m, at, ne, t) = dominated_why d ds (rw (is_dominated_by_another, e, n) at h) in
          (j, c, ground arith, at, ne, t)
    ]
  ]

  -- When the loop over d picks nothing.
  imm_dom-none :
      (strict ds : List ℕ) (d : ℕ)
      → ((k : ℕ) → elem k ds ≡ true → (b : ℕ) × (get_elem? order k ≡ some b))
      → imm_dom order dom strict ds ≡ none
      → elem d ds ≡ true
      → is_dominated_by_another order dom d strict ≡ true
  imm_dom-none strict [] d inside h m = absurd (ground arith)
  imm_dom-none strict (k ∷ ds) d inside h m =
      elim (Bool-cases (is_dominated_by_another order dom k strict)) [
        | inr e ↦ absurd (
            let (b, at) = inside k (ground arith) in
            let gone = (rw (imm_dom, e) at h) in ground arith)
        | inl e ↦ elim (Bool-cases (d == k)) [
          | inl s ↦ ap (λ i. is_dominated_by_another order dom i strict) ((==_iff d k).0 s) ∙ e
          | inr s ↦
              imm_dom-none strict ds d (λ i n. inside i (ground arith)) (rw (imm_dom, e) at h)
                (ground arith)
        ]
      ]

module _ (f : Function) (p : Computed f) where
  open p use {rest, distinct, visits, info, wide, exact}

  abbrev blocks : List ℕ
  blocks = f.entry ∷ rest

  dominates_bit :
      (b j d : ℕ)
      → Reachable (cfg_of f) b
      → get_elem? blocks j ≡ some d
      → (Avoids f d b → ⊥)
      → test (info.dom b) j ≡ true
  dominates_bit b j d r at dominates = elim (Bool-cases (test (info.dom b) j)) [
    | inl t ↦ t
    | inr t ↦ absurd (dominates ((exact b j d r at).0 t))
  ]

  bit_dominates :
      (b j d : ℕ)
      → Reachable (cfg_of f) b
      → get_elem? blocks j ≡ some d
      → test (info.dom b) j ≡ true
      → Avoids f d b
      → ⊥
  bit_dominates b j d r at t a = let clear = (exact b j d r at).1 a in absurd (ground arith)

  bit_inside :
      (b j : ℕ)
      → Reachable (cfg_of f) b
      → test (info.dom b) j ≡ true
      → (d : ℕ) × (get_elem? blocks j ≡ some d)
  bit_inside b j r t = elim (Option-cases (get_elem? blocks j)) [
    | inr found ↦ found
    | inl e ↦
        let top = test_inside (info.dom b) j t in
        let long = wide b ((visits b).1 r) in
        let over = get_elem?-none blocks j e in absurd (omega (arith, top, long, over))
  ]

  -- What dominates a dominator has fewer dominators.
  rises :
      (c d k : ℕ)
      → Reachable (cfg_of f) c
      → Reachable (cfg_of f) d
      → get_elem? blocks k ≡ some d
      → c ≢ d
      → test (info.dom c) k ≡ true
      → count (info.dom d) < count (info.dom c)
  rises c d k rc rd at ne t =
      let over = bit_dominates c k d rc at t in
      let less : SubBits (info.dom d) (info.dom c) =
        SubBits-bits (info.dom d) (info.dom c)
          (wide d ((visits d).1 rd) ∙ sym (wide c ((visits c).1 rc)))
          (λ i s.
            let (x, at_x) = bit_inside d i rd s in
            dominates_bit c i x rc at_x (λ a. elim (Avoids-through f x d c a) [
              | inl y ↦ bit_dominates d i x rd at_x s y
              | inr z ↦ over z
            ])) in
      let (j, at_c) = index_of-elem blocks c ((visits c).1 rc) in
      let own = dominates_bit c j c rc at_c (λ a. Avoids-ne f c c a refl) in
      SubBits-count-lt (info.dom d) (info.dom c) less
        (elim (Bool-cases (same_bits (info.dom d) (info.dom c))) [
          | inr n ↦ n
          | inl e ↦
              let same = ap (λ v. test v j) (same_bits-eq (info.dom d) (info.dom c) e) in
              absurd (elim (Avoids-either f c d ne rc) [
                | inl a ↦ over a
                | inr a ↦ bit_dominates d j c rd at_c (same ∙ own) a
              ])
        ])

  module _ (b : ℕ) (r : Reachable (cfg_of f) b)
      (nothing : imm_dom blocks info.dom (strict f p b) (strict f p b) ≡ none) where
    strict_inside : (k : ℕ) → elem k (strict f p b) ≡ true → (d : ℕ) × (get_elem? blocks k ≡ some d)
    strict_inside k m =
        let bit = elem-strict (info.dom b) (position (idx f rest distinct) b) k in
        bit_inside b k r (ground arith)

    -- A strict dominator that has more dominators than this one.
    next_link :
        (k d : ℕ)
        → elem k (strict f p b) ≡ true
        → get_elem? blocks k ≡ some d
        → (j c : ℕ) × (elem j (strict f p b) ≡ true)
          × (get_elem? blocks j ≡ some c)
          × (count (info.dom d) < count (info.dom c))
          × (count (info.dom c) ≤ suc (length rest))
    next_link k d m at =
        let why =
          dominated_why blocks info.dom k (strict f p b) (
            imm_dom-none blocks info.dom (strict f p b) (strict f p b) k strict_inside nothing m) in
        let (j, c, in_strict, at_c, other, t) = why in
        let c_in = get_elem?-elem blocks j c at_c in
        let rc = (visits c).0 c_in in
        let rd = (visits d).0 (get_elem?-elem blocks k d at) in
        let first = same_position f rest distinct k c d c_in at in
        let second = same_position f rest distinct j c c c_in at_c in
        let self = ==_refl c in
        let is_j : position (idx f rest distinct) c ≡ j =
          (==_iff (position (idx f rest distinct) c) j).0 (second ∙ self) in
        let apart : (c == d) ≡ false = sym first ∙ ap (λ i. i == k) is_j ∙ other in
        let up =
          rises c d k rc rd at (λ e. let yes = (==_iff c d).1 e in absurd (ground arith)) t in
        let most = count-le-length (info.dom c) in
        let long = wide c c_in in (j, c, in_strict, at_c, up, omega (arith, most, long))

    -- There is no endless chain of strict dominators.
    no_chain :
        (n k d : ℕ)
        → elem k (strict f p b) ≡ true
        → get_elem? blocks k ≡ some d
        → suc (length rest) ≤ count (info.dom d) + n
        → ⊥
    no_chain zero k d m at room =
        let (j, c, in_strict, at_c, up, most) = next_link k d m at in
        absurd (omega (arith, up, most, room))
    no_chain (suc n) k d m at room =
        let (j, c, in_strict, at_c, up, most) = next_link k d m at in
        no_chain n j c in_strict at_c (omega (arith, up, room))

  idom_exists : (b : ℕ) → Reachable (cfg_of f) b → b ≢ f.entry → (d : ℕ) × (info.idom b ≡ some d)
  idom_exists b r ne =
      let b_in = (visits b).1 r in
      let other = ==_ne b f.entry ne in
      let later : elem b rest ≡ true = ground arith in
      let picks = idom_at f p b ∙ rw later refl in
      elim (Option-cases (imm_dom blocks info.dom (strict f p b) (strict f p b))) [
        | inr (d, e) ↦ (d, picks ∙ e)
        | inl e ↦ absurd (
            no_chain b r e (suc (length rest)) 0 f.entry
              (strict_dominator f p b r f.entry 0 (λ s. ne (sym s)) (Avoids-entry f b) refl) refl
              (omega arith))
      ]

-- For a function whose edges stay inside it and whose predecessor lists agree with its successor lists:
-- the entry block has no immediate dominator. Every other reachable block has one: a different block that
-- no path to it avoids, and that dominates none of the other blocks that dominate it, some path from the
-- entry block to each of them avoids it.
pub compute_dominators-idom :
    (f : Function)
    → IsCfg (cfg_of f) (blocks_of f)
    → ListsPreds f
    → (info : DomInfo) × (compute_dominators f ≡ some info)
      × (info.idom f.entry ≡ none)
      × ((b : ℕ)
          → Reachable (cfg_of f) b
          → b ≢ f.entry
          → (d : ℕ) × (info.idom b ≡ some d)
            × (d ≢ b)
            × (Avoids f d b → ⊥)
            × ((c : ℕ)
                → Reachable (cfg_of f) c
                → c ≢ b
                → (Avoids f c b → ⊥)
                → c ≢ d
                → Avoids f d c))
compute_dominators-idom f cfg listed =
    let p = computed f cfg listed in
    (
      p.info,
      p.returns,
      idom_entry f p,
      λ b r ne.
          let (d, found) = idom_exists f p b r ne in
          let (other, dominates) = idom_is_strict f p b r d found in
          (d, found, other, dominates, idom_is_closest f p b r d found),
    )
