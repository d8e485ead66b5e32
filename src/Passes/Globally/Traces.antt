-- ===== src/Passes/Globally/Traces.antt =====
-- The loop over the traces.
use mathlib.Core.List.{flatten}
use llvm_scheduling_reg_pres.Base.{
  ℕ, ◌≡◌, refl, sym, ap, ◌∙◌, true, false, not, List, [], ◌∷◌, ◌++◌, map, Option, some, elem,
  elem-append, elem-select, Distinct, Distinct-right, Distinct-apart, arith, Bool-cases, inl, inr,
}
use llvm_scheduling_reg_pres.Ir.{is_phi}
use llvm_scheduling_reg_pres.Ir.Function.{Function}
use llvm_scheduling_reg_pres.Ddg.{Ddg}
use llvm_scheduling_reg_pres.Ddg.Build.{build_ddg}
use llvm_scheduling_reg_pres.Ddg.Build.Correct.{build_ddg-Represents}
use llvm_scheduling_reg_pres.Critical.Lengths.{SameShape}
use llvm_scheduling_reg_pres.Critical.Longest.{compute_critical_path-SameShape}
use llvm_scheduling_reg_pres.ListScheduler.{Job, instrs}
use llvm_scheduling_reg_pres.ListScheduler.Correct.{list_schedule-IsTopological}
use llvm_scheduling_reg_pres.Local.Block.{SameShape-Represents, elem-instrs}
use llvm_scheduling_reg_pres.Hoist.{Hoister, apply_schedule}
use llvm_scheduling_reg_pres.Hoist.Anchors.{SameAnchors, apply_schedule-SameAnchors}
use llvm_scheduling_reg_pres.Hoist.Balance.{IsBalanced, apply_schedule-IsBalanced}
use llvm_scheduling_reg_pres.Hoist.Placed.{IsPlaced, Keeps, Keeps-refl, Keeps-trans}
use llvm_scheduling_reg_pres.Hoist.Kept.{apply_schedule-Keeps}
use llvm_scheduling_reg_pres.Passes.{
  GlobalState, at_state, schedule_trace, schedule_traces, build_ddgs, critical_paths,
}
use llvm_scheduling_reg_pres.Passes.Globally.Flattened.{
  elem-flatten_of, Distinct-flatten, Distinct-append_left,
}

pub Keeps-widen :
    (trace wider : List ℕ) (c c' : ℕ → List ℕ) (p p' : ℕ → ℕ)
    → ((b : ℕ) → elem b trace ≡ true → elem b wider ≡ true)
    → Keeps trace c p c' p'
    → Keeps wider c p c' p'
Keeps-widen trace wider c c' p p' sub k = record {
  placed = k.placed;
  none_lost = k.none_lost;
  outside = λ b m. k.outside b (narrower b m);
  inside = λ i m. elim (Bool-cases (elem (p i) trace)) [
    | inl e ↦ sub (p' i) (k.inside i e)
    | inr e ↦ ap (λ b. elem b wider) (k.away i e) ∙ m
  ];
  away = λ i m. k.away i (narrower (p i) m);
}
  where
    narrower : (b : ℕ) → elem b wider ≡ false → elem b trace ≡ false
    narrower b m = elim (Bool-cases (elem b trace)) [
      | inl e ↦ absurd (let there = sub b e in ground arith)
      | inr e ↦ e
    ]

-- The graphs are those of the traces, with the critical paths filled in.
pub Prepared : Function → List (List ℕ) → List Ddg → Type 0
Prepared f [] [] = Unit
Prepared f [] (g ∷ gs) = ⊥
Prepared f (t ∷ ts) [] = ⊥
Prepared f (t ∷ ts) (g ∷ gs) = SameShape (build_ddg f.ir (map f.contents t)) g × Prepared f ts gs

-- No trace is empty.
unfoldable pub NonEmpty : List (List ℕ) → Type 0
NonEmpty [] = Unit
NonEmpty ([] ∷ ts) = ⊥
NonEmpty ((b ∷ bs) ∷ ts) = NonEmpty ts

module _ (f : Function) (parent : ℕ → ℕ) (placed : IsPlaced f.contents parent) where
  pub critical_paths-Prepared :
      (traces : List (List ℕ))
      → Distinct (flatten traces)
      → (gs : List Ddg) × (critical_paths (build_ddgs f traces) ≡ some gs) × Prepared f traces gs
  unfolding flatten critical_paths Prepared
  critical_paths-Prepared [] d = ([], refl, tt)
  critical_paths-Prepared (t ∷ ts) d =
      let built =
        build_ddg-Represents f.ir (map f.contents t)
          (Distinct-flatten f.contents parent t placed (Distinct-append_left t (flatten ts) d)) in
      let (g, found, shape) =
        compute_critical_path-SameShape (build_ddg f.ir (map f.contents t)) built.wf
          built.distinct in
      let (gs, rest, ready) = critical_paths-Prepared ts (Distinct-right t (flatten ts) d) in
      (g ∷ gs, rw (found, rest) refl, (shape, ready))

  -- What one trace does.
  pub record TraceDone (h : Hoister) (trace : List ℕ) (st : GlobalState)
      (result : Option GlobalState) : Type 0 where
    pub end : GlobalState
    pub returns : result ≡ some end
    pub keeps : Keeps trace st.contents st.parent end.contents end.parent
    pub anchors : SameAnchors h st.contents end.contents
    pub balanced : IsBalanced st.stats → IsBalanced end.stats

  module _ (h : Hoister) (first : ℕ) (rest : List ℕ) (g : Ddg) (st : GlobalState)
      (d : Distinct (first ∷ rest))
      (shape : SameShape (build_ddg f.ir (map f.contents (first ∷ rest))) g)
      (now : IsPlaced st.contents st.parent)
      (same_contents : (b : ℕ) → elem b (first ∷ rest) ≡ true → st.contents b ≡ f.contents b) where
    abbrev trace : List ℕ
    trace = first ∷ rest

    schedule_trace-TraceDone : TraceDone h trace st (schedule_trace h g trace st)
    unfolding schedule_trace
    schedule_trace-TraceDone =
        let built =
          build_ddg-Represents f.ir (map f.contents trace)
            (Distinct-flatten f.contents parent trace placed d) in
        let r = SameShape-Represents f.ir _ _ _ g shape built in
        let job : Job = record {
          ddg = g;
          env = (at_state h st).env;
          use_reg_pressure = h.use_pressure;
          stats_on = h.stats_on;
        } in
        let (picked, s, scheduled, t) =
          list_schedule-IsTopological job r.wf r.distinct (h.env.liveness first).in_set st.peak in
        let end =
          apply_schedule (at_state h st) (instrs g picked) trace st.contents st.parent st.stats in
        record {
          end = record {
            contents = end.contents;
            parent = end.parent;
            stats = end.stats;
            peak = s.peak;
          };
          returns = rw scheduled refl;
          keeps =
              apply_schedule-Keeps (at_state h st) (instrs g picked) trace st.contents st.parent
                st.stats now
                (λ i m.
                  let (n, in_picked, is) = elem-instrs g i picked m in
                  let in_select = r.of_instr n (t.from_nodes n in_picked) in
                  let both =
                    elem-select (λ k. not (is_phi (f.ir k))) (g.heap n).instr
                      (flatten (map f.contents trace)) in
                  let (b, in_trace, old) =
                    elem-flatten_of (g.heap n).instr f.contents trace (ground arith) in
                  let here : elem i (st.contents b) ≡ true =
                    ap (λ l. elem i l) (same_contents b in_trace)
                    ∙ ap (λ k. elem k (f.contents b)) (sym is)
                    ∙ old in
                  let home = now.home b i here in
                  (
                    ap (λ c. elem i (st.contents c)) home ∙ here,
                    ap (λ c. elem c trace) home ∙ in_trace,
                  ));
          anchors =
              apply_schedule-SameAnchors (at_state h st) (instrs g picked) trace st.contents
                st.parent st.stats d (λ b m. now.distinct b);
          balanced =
              apply_schedule-IsBalanced (at_state h st) (instrs g picked) trace st.contents
                st.parent st.stats;
        }

  pub schedule_traces-TraceDone :
      (h : Hoister) (traces : List (List ℕ)) (gs : List Ddg) (st : GlobalState)
      → Distinct (flatten traces)
      → NonEmpty traces
      → Prepared f traces gs
      → IsPlaced st.contents st.parent
      → ((b : ℕ) → elem b (flatten traces) ≡ true → st.contents b ≡ f.contents b)
      → TraceDone h (flatten traces) st (schedule_traces h gs traces st)
  unfolding flatten schedule_traces Prepared NonEmpty
  schedule_traces-TraceDone h [] [] st d full p now same = record {
    end = st;
    returns = refl;
    keeps = Keeps-refl [] st.contents st.parent now;
    anchors = λ b. refl;
    balanced = λ b. b;
  }
  schedule_traces-TraceDone h [] (g ∷ gs) st d full p now same = absurd p
  schedule_traces-TraceDone h (t ∷ ts) [] st d full p now same = absurd p
  schedule_traces-TraceDone h ([] ∷ ts) (g ∷ gs) st d full p now same = absurd full
  schedule_traces-TraceDone h ((b ∷ bs) ∷ ts) (g ∷ gs) st d full p now same =
      let t = b ∷ bs in
      let one =
        schedule_trace-TraceDone h b bs g st (Distinct-append_left t (flatten ts) d) p.0 now
          (λ c m. same c (elem-append c t (flatten ts) ∙ ground arith)) in
      let rest =
        schedule_traces-TraceDone h ts gs one.end (Distinct-right t (flatten ts) d) full p.1
          one.keeps.placed
          (λ c m.
            let away : elem c t ≡ false = elim (Bool-cases (elem c t)) [
              | inl e ↦ absurd (let apart = Distinct-apart c t (flatten ts) d m in ground arith)
              | inr e ↦ e
            ] in
            one.keeps.outside c away ∙ same c (elem-append c t (flatten ts) ∙ ground arith)) in
      let wide = t ++ flatten ts in
      record {
        end = rest.end;
        returns = rw (one.returns) (rest.returns);
        keeps =
            Keeps-trans wide st.contents one.end.contents rest.end.contents st.parent one.end.parent
              rest.end.parent
              (Keeps-widen t wide st.contents one.end.contents st.parent one.end.parent
                (λ c m. elem-append c t (flatten ts) ∙ ground arith) one.keeps)
              (Keeps-widen (flatten ts) wide one.end.contents rest.end.contents one.end.parent
                rest.end.parent (λ c m. elem-append c t (flatten ts) ∙ ground arith) rest.keeps);
        anchors = λ c. rest.anchors c ∙ one.anchors c;
        balanced = λ k. rest.balanced (one.balanced k);
      }
