-- ===== src/Liveness/Correct.antt =====
-- computeLiveness as a whole.
use mathlib.Core.List.{reverse, reverse-cons}
use llvm_scheduling_reg_pres.Base.{
  ℕ, suc, ◌+◌, ◌*◌, ◌≤◌, ◌<◌, ◌≡◌, ◌↔◌, refl, sym, ap, subst, ◌∙◌, true, false, List, [], ◌∷◌,
  Option, some, arith, elem, length, if◌then◌else◌, Bool-cases, inl, inr, elem-append,
}
use llvm_scheduling_reg_pres.Ir.{Value}
use llvm_scheduling_reg_pres.Ir.Function.{Function, blocks_of, universe_of}
use llvm_scheduling_reg_pres.Ir.Values.{build_value_index}
use llvm_scheduling_reg_pres.Ir.BitVec.{test, zeros}
use llvm_scheduling_reg_pres.Ir.Subset.{
  clear, length-zeros, test-zeros, zeros-SubBits, clear-le-length,
}
use llvm_scheduling_reg_pres.Dataflow.Fixpoint.{Settled, iterate-Settled, total-le}
use llvm_scheduling_reg_pres.Dataflow.Flow.{Flows, Flows-map, FlowInv-Start, Flows-fixed}
use llvm_scheduling_reg_pres.Dataflow.Union.{union_from-hit, union_from-pass}
use llvm_scheduling_reg_pres.Liveness.{
  BlockStateLiveness, all_zeros, no_entry, first_states, liveness_step, compute_liveness,
}
use llvm_scheduling_reg_pres.Liveness.Sets.{
  exposed, defines, Scanned, scan_block-Scanned, first_of, first_states_at,
}
use llvm_scheduling_reg_pres.Liveness.Step.{
  IsWide, gen, kill, meet, length-meet, flow, flow-IsFlow, LivenessInv, liveness_step-Analysis, ins,
  step_fixed, new_in-flow,
}

-- The edges of the function lead from blocks of its own to blocks of its own.
abbrev pub IsClosed : Function → Type 0
IsClosed f =
    (a b : ℕ)
    → elem a (blocks_of f) ≡ true
    → elem b (f.successors a) ≡ true
    → elem b (blocks_of f) ≡ true

-- The value of index `idx` is live where block `b` starts: `b` reads it before it computes it, or
-- leaves it alone on the way to a successor where it is live.
abbrev pub LiveIn : Function → (idx : ℕ) → ℕ → Type 0
LiveIn f =
    Flows f.successors (λ b i. exposed f.ir (build_value_index (universe_of f)) i (f.contents b))
      (λ b i. defines (build_value_index (universe_of f)) i (f.contents b))

elem-reverse : (k : ℕ) (xs : List ℕ) → elem k (reverse xs) ≡ elem k xs
elem-reverse k [] = refl
elem-reverse k (x ∷ xs) =
    ap (λ l. elem k l) (reverse-cons x xs)
    ∙ ground (arith, elem-append k (reverse xs) (x ∷ []), elem-reverse k xs)

module _ (f : Function) where
  abbrev index : Value → Option ℕ
  index = build_value_index (universe_of f)

  abbrev width : ℕ
  width = length (universe_of f)

  abbrev order : List ℕ
  order = reverse (blocks_of f)

  -- The states before the first pass.
  abbrev initial : ℕ → BlockStateLiveness
  initial = first_states f index width (blocks_of f) (λ _. no_entry)

  initial_at : (k : ℕ) → elem k order ≡ true → initial k ≡ first_of f index width k
  initial_at k m =
      first_states_at f index width (blocks_of f) (λ _. no_entry) k
      ∙ rw (sym (elem-reverse k (blocks_of f)) ∙ m) refl

  initial_outside : (k : ℕ) → elem k order ≡ false → initial k ≡ no_entry
  initial_outside k m =
      first_states_at f index width (blocks_of f) (λ _. no_entry) k
      ∙ rw (sym (elem-reverse k (blocks_of f)) ∙ m) refl

  initial-Scanned :
      (idx k : ℕ)
      → elem k order ≡ true
      → Scanned f.ir index idx width (f.contents k) (all_zeros width) (initial k)
  initial-Scanned idx k m =
      subst (λ b. Scanned f.ir index idx width (f.contents k) (all_zeros width) b)
        (sym (initial_at k m))
        (scan_block-Scanned f.ir index idx width (f.contents k) (all_zeros width)
          (length-zeros width) (length-zeros width))

  initial-IsWide : IsWide f order width initial
  initial-IsWide = record {
    wide_use = λ b m. (initial-Scanned 0 b m).wide_use;
    wide_def = λ b m. (initial-Scanned 0 b m).wide_def;
  }

  initial_in : (k : ℕ) → (initial k).in_set ≡ (if elem k order then zeros width else [])
  initial_in k = elim (Bool-cases (elem k order)) [
    | inl e ↦ rw e ((initial-Scanned 0 k e).same_in)
    | inr e ↦ rw e (ap (λ b. b.in_set) (initial_outside k e))
  ]

  initial-LivenessInv : LivenessInv f order width initial initial
  initial-LivenessInv =
      let flows =
        FlowInv-Start order width f.successors (gen f order width initial)
          (kill f order width initial) (flow f order width initial)
          (flow-IsFlow f order width initial initial-IsWide) (ins f order width initial initial)
          initial_in in
      record {
        flows = flows;
        same_use = λ k. refl;
        same_def = λ k. refl;
        out_below = λ k m. rw ((initial-Scanned 0 k m).same_out) (
            zeros-SubBits width (meet f order width initial k (ins f order width initial initial)) (
              length-meet f order width initial k (ins f order width initial initial)
                flows.fits.narrow));
      }

  initial_small : (b : ℕ) → clear (initial b).in_set + clear (initial b).out_set ≤ width + width
  initial_small b =
      let c = clear-le-length (initial b).in_set in
      let d = clear-le-length (initial b).out_set in
      let z = length-zeros width in
      elim (Bool-cases (elem b order)) [
        | inl e ↦
            let i = ap length ((initial-Scanned 0 b e).same_in) in
            let o = ap length ((initial-Scanned 0 b e).same_out) in omega (arith, c, d, z, i, o)
        | inr e ↦
            let i = ap (λ s. length s.in_set) (initial_outside b e) in
            let o = ap (λ s. length s.out_set) (initial_outside b e) in omega (arith, c, d, i, o)
      ]

  abbrev Ends : Type 0
  Ends =
      Settled BlockStateLiveness BlockStateLiveness (liveness_step f width) order
        (liveness_step-Analysis f order width initial initial-IsWide) (compute_liveness f)

  compute_liveness-Settled : Ends
  unfolding compute_liveness liveness_step-Analysis
  compute_liveness-Settled =
      let an = liveness_step-Analysis f order width initial initial-IsWide in
      let small =
        total-le BlockStateLiveness BlockStateLiveness (liveness_step f width) order an
          (width + width) order initial initial_small in
      iterate-Settled BlockStateLiveness BlockStateLiveness (liveness_step f width) order an
        (suc (length order * (width + width))) initial initial-LivenessInv (omega (arith, small))

  -- The loop ends on every function.
  pub compute_liveness-some : (st : ℕ → BlockStateLiveness) × (compute_liveness f ≡ some st)
  unfolding liveness_step-Analysis
  compute_liveness-some = let s = compute_liveness-Settled in (s.end, s.returns)

  module _ (closed : IsClosed f) (end : ℕ → BlockStateLiveness)
      (i : LivenessInv f order width initial end)
      (fixed : (b : ℕ) → elem b order ≡ true → liveness_step f width b end ≡ (end b, false)) where
    closed_order :
        (a b : ℕ) → elem a order ≡ true → elem b (f.successors a) ≡ true → elem b order ≡ true
    closed_order a b m e =
        elem-reverse b (blocks_of f) ∙ closed a b (sym (elem-reverse a (blocks_of f)) ∙ m) e

    fixed_in :
        (b : ℕ)
        → elem b order ≡ true
        → ins f order width initial end b
          ≡ flow f order width initial b (ins f order width initial end)
    fixed_in b m =
        sym ((step_fixed f order width initial b end (fixed b m)).0)
        ∙ new_in-flow f order width initial initial-IsWide b end m i

    module _ (idx : ℕ) (small : idx < width) where
      gen-exposed :
          (b : ℕ)
          → elem b order ≡ true
          → gen f order width initial b idx ≡ exposed f.ir index idx (f.contents b)
      gen-exposed b m =
          let used = (initial-Scanned idx b m).used small in
          let z = test-zeros width idx in ground arith

      kill-defines :
          (b : ℕ)
          → elem b order ≡ true
          → kill f order width initial b idx ≡ defines index idx (f.contents b)
      kill-defines b m =
          let defined = (initial-Scanned idx b m).defined small in
          let z = test-zeros width idx in ground arith

      in_LiveIn : (b : ℕ) → elem b order ≡ true → (test (end b).in_set idx ≡ true) ↔ LiveIn f idx b
      in_LiveIn b m = (
        λ t.
            Flows-map order f.successors (gen f order width initial) (kill f order width initial)
              (λ b i. exposed f.ir index i (f.contents b)) (λ b i. defines index i (f.contents b))
              idx closed_order gen-exposed kill-defines b m (i.flows.sound b idx t),
        λ l.
            Flows-fixed order width f.successors (gen f order width initial)
              (kill f order width initial) (flow f order width initial)
              (flow-IsFlow f order width initial initial-IsWide) (ins f order width initial end)
              i.flows fixed_in closed_order idx b
              (Flows-map order f.successors (λ b i. exposed f.ir index i (f.contents b))
                (λ b i. defines index i (f.contents b)) (gen f order width initial)
                (kill f order width initial) idx closed_order (λ k at. sym (gen-exposed k at))
                (λ k at. sym (kill-defines k at)) b m l)
              m,
      )

      out_LiveIn :
          (b : ℕ)
          → elem b order ≡ true
          → (test (end b).out_set idx ≡ true)
            ↔ ((s : ℕ) × (elem s (f.successors b) ≡ true) × LiveIn f idx s)
      out_LiveIn b m =
          let out = (step_fixed f order width initial b end (fixed b m)).1 in
          let V = ins f order width initial end in
          (
            λ t.
                elim (union_from-hit (f.successors b) (zeros width) V idx
                  (ap (λ v. test v idx) out ∙ t)) [
                    | inl z ↦ absurd (let none_set = test-zeros width idx in cc)
                    | inr (s, e, v) ↦ (s, e, (in_LiveIn s (closed_order b s m e)).0 v)
                  ],
            λ (s, e, l).
                sym (ap (λ v. test v idx) out)
                ∙ union_from-pass (f.successors b) (zeros width) V idx s e
                    ((in_LiveIn s (closed_order b s m e)).1 l),
          )

-- For a function whose edges stay inside it computeLiveness ends. For each block and each value, the
-- `in` set then has the value's bit exactly when the value is live where the block starts, on some
-- path along the edges, and the `out` set exactly when it is live where some successor starts.
pub compute_liveness-LiveIn :
    (f : Function)
    → IsClosed f
    → (st : ℕ → BlockStateLiveness) × (compute_liveness f ≡ some st)
      × ((b idx : ℕ)
          → elem b (blocks_of f) ≡ true
          → idx < length (universe_of f)
          → ((test (st b).in_set idx ≡ true) ↔ LiveIn f idx b)
            × ((test (st b).out_set idx ≡ true)
                ↔ ((s : ℕ) × (elem s (f.successors b) ≡ true) × LiveIn f idx s)))
unfolding liveness_step-Analysis
compute_liveness-LiveIn f closed =
    let s = compute_liveness-Settled f in
    (
      s.end,
      s.returns,
      λ b idx m small.
          let at = elem-reverse b (blocks_of f) ∙ m in
          (
            in_LiveIn f closed s.end s.inv s.fixed idx small b at,
            out_LiveIn f closed s.end s.inv s.fixed idx small b at,
          ),
    )
