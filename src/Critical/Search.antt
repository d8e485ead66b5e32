-- ===== src/Critical/Search.antt =====
-- The depth-first search ends, lists every node once, and on a graph whose edges lead from older
-- nodes to younger ones lists each node behind its successors.
use llvm_scheduling_reg_pres.Base.{
  ℕ, zero, suc, ◌≤◌, ◌<◌, ◌≡◌, refl, true, false, List, [], ◌∷◌, ◌++◌, Option, some, ◌==◌, elem,
  Distinct, Before, missing, missing-cons, missing-le, missing-pos, elem-append, elem-ne,
  Before-append_left, Before-append_across, arith, length, Bool-cases, inl, inr, ==_iff,
}
use mathlib.Core.List.{reverse}
use llvm_scheduling_reg_pres.Ddg.{Ddg}
use llvm_scheduling_reg_pres.Ddg.Edges.{IsWf, succs, edge, Distinct-snoc}
use llvm_scheduling_reg_pres.Critical.{Sorting, visit_all, topo_sort_dfs, topological_sort}

abbrev pub Forward : Ddg → Type 0
Forward g = (a b : ℕ) → edge g a b ≡ true → a < b

module _ (g : Ddg) where
  -- In `ns` each node stands behind its successors.
  abbrev pub SinksFirst : List ℕ → Type 0
  SinksFirst ns = (a b : ℕ) → edge g a b ≡ true → elem a ns ≡ true → Before ns b a

  record Inv (st : Sorting) : Type 0 where
    distinct : Distinct st.result
    finished : (n : ℕ) → elem n st.result ≡ true → elem n st.visited ≡ true
    of_graph : (n : ℕ) → elem n st.result ≡ true → elem n g.nodes ≡ true
    ordered : Forward g → SinksFirst st.result

  -- The nodes that are visited and not finished are older than `n`.
  abbrev Above : Sorting → ℕ → Type 0
  Above st n = Forward g → (v : ℕ) → elem v st.visited ≡ true → elem v st.result ≡ false → v < n

  -- What a search makes of the state.
  record Step (st st' : Sorting) : Type 0 where
    inv : Inv st'
    seen : (v : ℕ) → elem v st.visited ≡ true → elem v st'.visited ≡ true
    kept : (v : ℕ) → elem v st.result ≡ true → elem v st'.result ≡ true
    still_open :
        (v : ℕ) → elem v st.visited ≡ true → elem v st.result ≡ false → elem v st'.result ≡ false
    open_before :
        (v : ℕ)
        → elem v st'.visited ≡ true
        → elem v st'.result ≡ false
        → (elem v st.visited ≡ true) × (elem v st.result ≡ false)
    fewer : missing g.nodes st'.visited ≤ missing g.nodes st.visited

  Step-refl : (st : Sorting) → Inv st → Step st st
  Step-refl st i = record {
    inv = i;
    seen = λ v m. m;
    kept = λ v m. m;
    still_open = λ v m a. a;
    open_before = λ v m a. (m, a);
    fewer = omega arith;
  }

  Step-trans : (r s t : Sorting) → Step r s → Step s t → Step r t
  Step-trans r s t p q = record {
    inv = q.inv;
    seen = λ v m. q.seen v (p.seen v m);
    kept = λ v m. q.kept v (p.kept v m);
    still_open = λ v m a. q.still_open v (p.seen v m) (p.still_open v m a);
    open_before = λ v m a. let (m', a') = q.open_before v m a in p.open_before v m' a';
    fewer = omega (arith, p.fewer, q.fewer);
  }

  -- The searches from `ns` succeed and finish all of them.
  record Visits (dfs : ℕ → Sorting → Option Sorting) (ns : List ℕ) (st : Sorting) : Type 0 where
    after : Sorting
    returns : visit_all dfs ns st ≡ some after
    step : Step st after
    all :
        (n : ℕ)
        → elem n ns ≡ true
        → (elem n after.visited ≡ true) × (Forward g → elem n after.result ≡ true)

  record Searches (dfs : ℕ → Sorting → Option Sorting) (n : ℕ) (st : Sorting) : Type 0 where
    after : Sorting
    returns : dfs n st ≡ some after
    step : Step st after
    done : elem n after.result ≡ true

  abbrev CanSearch : ℕ → (ℕ → Sorting → Option Sorting) → Type 0
  CanSearch fuel dfs =
      (n : ℕ) (st : Sorting)
      → Inv st
      → elem n g.nodes ≡ true
      → elem n st.visited ≡ false
      → Above st n
      → missing g.nodes st.visited ≤ fuel
      → Searches dfs n st

  not_open :
      (n : ℕ) (st : Sorting)
      → elem n st.visited ≡ true
      → (elem n st.result ≡ false → n < n)
      → elem n st.result ≡ true
  not_open n st e h = elim (Bool-cases (elem n st.result)) [
    | inl m ↦ m
    | inr a ↦ absurd (omega (arith, h a))
  ]

  Visits-of :
      (fuel : ℕ) (dfs : ℕ → Sorting → Option Sorting)
      → CanSearch fuel dfs
      → (ns : List ℕ) (st : Sorting) → Inv st
      → ((n : ℕ) → elem n ns ≡ true → (elem n g.nodes ≡ true) × Above st n)
      → missing g.nodes st.visited ≤ fuel
      → Visits dfs ns st
  unfolding visit_all
  Visits-of fuel dfs can [] st i h m = record {
    after = st;
    returns = refl;
    step = Step-refl st i;
    all = λ n e. absurd (ground arith);
  }
  Visits-of fuel dfs can (n ∷ ns) st i h m = elim (Bool-cases (elem n st.visited)) [
    | inl e ↦
        let rest = Visits-of fuel dfs can ns st i (λ k e'. h k (ground arith)) m in
        record {
          after = rest.after;
          returns = rw e rest.returns;
          step = rest.step;
          all = λ k e'. elim (Bool-cases (k == n)) [
            | inr other ↦ rest.all k (ground arith)
            | inl same ↦ rw ((==_iff k n).0 same) (
              rest.step.seen n e,
              λ forward. rest.step.kept n (not_open n st e ((h n (ground arith)).1 forward n e)),
            )
          ];
        }
    | inr e ↦
        let here = can n st i (h n (ground arith)).0 e (h n (ground arith)).1 m in
        let rest =
          Visits-of fuel dfs can ns here.after here.step.inv
            (λ k e'.
              let (node, above) = h k (ground arith) in
              (
                node,
                λ forward v mv av.
                    let (mv', av') = here.step.open_before v mv av in above forward v mv' av',
              ))
            (omega (arith, here.step.fewer)) in
        record {
          after = rest.after;
          returns = rw (e, here.returns) rest.returns;
          step = Step-trans st here.after rest.after here.step rest.step;
          all = λ k e'. elim (Bool-cases (k == n)) [
            | inr other ↦ rest.all k (ground arith)
            | inl same ↦
                let done = rest.step.kept n here.done in
                rw ((==_iff k n).0 same) (rest.step.inv.finished n done, λ forward. done)
          ];
        }
  ]

  module _ (w : IsWf g) (nodup : Distinct g.nodes) (n : ℕ) (st : Sorting) (i : Inv st)
      (node : elem n g.nodes ≡ true) (fresh : elem n st.visited ≡ false) (above : Above st n) where
    abbrev entered : Sorting
    entered = record st { visited = n ∷ st.visited }

    Inv-entered : Inv entered
    Inv-entered = record {
      distinct = i.distinct;
      finished = λ v m. ground (arith, i.finished v m);
      of_graph = i.of_graph;
      ordered = i.ordered;
    }

    Above-entered : (s : ℕ) → elem s (succs g n) ≡ true → (elem s g.nodes ≡ true) × Above entered s
    Above-entered s e = (
      w.closed_to n s e,
      λ forward v mv av. elim (Bool-cases (v == n)) [
        | inl same ↦ rw ((==_iff v n).0 same) (forward n s e)
        | inr other ↦ omega (arith, forward n s e, above forward v (ground arith) av)
      ],
    )

    fewer-entered : suc (missing g.nodes (n ∷ st.visited)) ≡ missing g.nodes st.visited
    fewer-entered = missing-cons n g.nodes st.visited nodup node fresh

    not_finished : elem n st.result ≡ false
    not_finished = ground (arith, Bool-cases (elem n st.result), i.finished n)

    module _ (dfs : ℕ → Sorting → Option Sorting) (v : Visits dfs (succs g n) entered) where
      abbrev left : Sorting
      left = record (v.after) { result = v.after.result ++ n ∷ [] }

      n_open : elem n v.after.result ≡ false
      n_open = v.step.still_open n (ground arith) not_finished

      Before-last :
          Forward g → (a b : ℕ) → a ≡ n → edge g a b ≡ true → Before (v.after.result ++ n ∷ []) b a
      Before-last forward a b same e =
          Before-append_across b a v.after.result (n ∷ []) ((v.all b (rw same at e)).1 forward)
            (rw same (ground arith))

      Inv-left : Inv left
      Inv-left = record {
        distinct = Distinct-snoc v.after.result n v.step.inv.distinct n_open;
        finished = λ k m. elim (Bool-cases (k == n)) [
          | inl same ↦ rw ((==_iff k n).0 same) (v.step.seen n (ground arith))
          | inr other ↦
              v.step.inv.finished k (ground (arith, elem-append k v.after.result (n ∷ [])))
        ];
        of_graph = λ k m. elim (Bool-cases (k == n)) [
          | inl same ↦ rw ((==_iff k n).0 same) node
          | inr other ↦
              v.step.inv.of_graph k (ground (arith, elem-append k v.after.result (n ∷ [])))
        ];
        ordered = λ forward a b e m. elim (Bool-cases (a == n)) [
          | inl same ↦ let n_is = (==_iff a n).0 same in Before-last forward a b n_is e
          | inr other ↦ Before-append_left b a v.after.result (n ∷ []) (
              v.step.inv.ordered forward a b e
                (ground (arith, elem-append a v.after.result (n ∷ []))))
        ];
      }

      Step-left : Step st left
      Step-left = record {
        inv = Inv-left;
        seen = λ k m. v.step.seen k (ground arith);
        kept = λ k m. ground (arith, elem-append k v.after.result (n ∷ []), v.step.kept k m);
        still_open = λ k m a.
            let still = v.step.still_open k (ground arith) a in
            ground (arith, elem-append k v.after.result (n ∷ []), elem-ne k n st.visited m fresh);
        open_before = λ k m a.
            let (m', a') =
              v.step.open_before k m (ground (arith, elem-append k v.after.result (n ∷ []))) in
            (ground (arith, elem-append k v.after.result (n ∷ [])), a');
        fewer = omega (arith, v.step.fewer, fewer-entered);
      }

      done-left : elem n left.result ≡ true
      done-left = ground (arith, elem-append n v.after.result (n ∷ []))

  topo_sort_dfs-suc :
      (fuel n : ℕ) (st st' : Sorting)
      → visit_all (topo_sort_dfs g fuel) (succs g n) (record st { visited = n ∷ st.visited })
        ≡ some st'
      → topo_sort_dfs g (suc fuel) n st ≡ some (record st' { result = st'.result ++ n ∷ [] })
  unfolding topo_sort_dfs
  topo_sort_dfs-suc fuel n st st' e = rw e

  topo_sort_dfs-CanSearch :
      IsWf g → Distinct g.nodes → (fuel : ℕ) → CanSearch fuel (topo_sort_dfs g fuel)
  topo_sort_dfs-CanSearch w nodup zero n st i node fresh above m =
      absurd (omega (arith, missing-pos n g.nodes st.visited node fresh))
  topo_sort_dfs-CanSearch w nodup (suc fuel) n st i node fresh above m =
      let dfs = topo_sort_dfs g fuel in
      let v =
        Visits-of fuel dfs (topo_sort_dfs-CanSearch w nodup fuel) (succs g n)
          (entered w nodup n st i node fresh above) (Inv-entered w nodup n st i node fresh above)
          (Above-entered w nodup n st i node fresh above)
          (omega (arith, fewer-entered w nodup n st i node fresh above)) in
      record {
        after = left w nodup n st i node fresh above dfs v;
        returns = topo_sort_dfs-suc fuel n st v.after v.returns;
        step = Step-left w nodup n st i node fresh above dfs v;
        done = done-left w nodup n st i node fresh above dfs v;
      }

  abbrev unvisited : Sorting
  unvisited = record { visited = []; result = [] }

  Inv-unvisited : Inv unvisited
  Inv-unvisited = record {
    distinct = tt;
    finished = λ n m. absurd (ground arith);
    of_graph = λ n m. absurd (ground arith);
    ordered = λ f a b e m. absurd (ground arith);
  }

  -- The nodes in the order in which the search leaves them.
  pub record IsPostorder (ns : List ℕ) : Type 0 where
    pub distinct : Distinct ns
    pub same : (n : ℕ) → elem n ns ≡ elem n g.nodes
    pub sinks_first : Forward g → SinksFirst ns

  pub search_all :
      IsWf g
      → Distinct g.nodes
      → (ns : List ℕ) × (topological_sort g ≡ some (reverse ns)) × IsPostorder ns
  unfolding topological_sort
  search_all w nodup =
      let fuel = length g.nodes in
      let dfs = topo_sort_dfs g fuel in
      let v =
        Visits-of fuel dfs (topo_sort_dfs-CanSearch w nodup fuel) g.nodes unvisited Inv-unvisited
          (λ n e. (e, λ f u m a. absurd (ground arith))) (missing-le g.nodes []) in
      let open_nodes = λ (n : ℕ). v.step.open_before n in
      (
        v.after.result,
        rw (v.returns),
        record {
          distinct = v.step.inv.distinct;
          same = λ n. ground (
            arith,
            v.step.inv.of_graph n,
            v.all n,
            open_nodes n,
            Bool-cases (elem n v.after.result),
            Bool-cases (elem n g.nodes),
          );
          sinks_first = v.step.inv.ordered;
        },
      )
