-- ===== src/Ddg/Edges.antt =====
-- What `addEdge` keeps: the two adjacency lists agree, hold no address twice, and the count of
-- predecessors is their number.
use llvm_scheduling_reg_pres.Base.{
  ℕ, ◌≡◌, refl, Bool, true, false, ◌&&◌, ◌||◌, List, [], ◌∷◌, ◌++◌, ◌==◌, if◌then◌else◌, elem,
  Distinct, length, length-append, elem-append, arith,
}
use llvm_scheduling_reg_pres.Base.Int.{pos}
use llvm_scheduling_reg_pres.Ddg.{Ddg, add_edge}

abbrev pub succs : Ddg → ℕ → List ℕ
succs g a = (g.heap a).successors

abbrev pub preds : Ddg → ℕ → List ℕ
preds g a = (g.heap a).predecessors

-- There is an edge from `a` to `b`.
abbrev pub edge : Ddg → ℕ → ℕ → Bool
edge g a b = elem b (succs g a)

pub record IsWf (g : Ddg) : Type 0 where
  pub mirrored : (a b : ℕ) → elem a (preds g b) ≡ edge g a b
  pub distinct_succs : (a : ℕ) → Distinct (succs g a)
  pub distinct_preds : (a : ℕ) → Distinct (preds g a)
  pub counted : (a : ℕ) → (g.heap a).pred_count ≡ pos (length (preds g a))
  pub closed_from : (a b : ℕ) → edge g a b ≡ true → elem a g.nodes ≡ true
  pub closed_to : (a b : ℕ) → edge g a b ≡ true → elem b g.nodes ≡ true

pub Distinct-snoc :
    (xs : List ℕ) (x : ℕ) → Distinct xs → elem x xs ≡ false → Distinct (xs ++ x ∷ [])
Distinct-snoc [] x d a = (refl, tt)
Distinct-snoc (y ∷ xs) x d a = ground (arith, Distinct-snoc xs x, elem-append y xs (x ∷ []))

pub nodes-add_edge : (s d : ℕ) (g : Ddg) → (add_edge s d g).nodes ≡ g.nodes
unfolding add_edge
nodes-add_edge s d g = ground arith

pub instr-add_edge :
    (s d : ℕ) (g : Ddg) (n : ℕ) → ((add_edge s d g).heap n).instr ≡ (g.heap n).instr
unfolding add_edge
instr-add_edge s d g n = ground arith

-- The edge is there afterwards, and no other edge came or went.
pub edge-add_edge :
    (s d : ℕ) (g : Ddg) (a b : ℕ)
    → edge (add_edge s d g) a b ≡ (edge g a b || ((s == a) && (d == b)))
unfolding add_edge
edge-add_edge s d g a b = ground (arith, elem-append b (succs g s) (d ∷ []))

preds-add_edge :
    (s d : ℕ) (g : Ddg) (b : ℕ)
    → preds (add_edge s d g) b
      ≡ (if edge g s d then preds g b else if d == b then preds g b ++ s ∷ [] else preds g b)
unfolding add_edge
preds-add_edge s d g b = ground arith

succs-add_edge :
    (s d : ℕ) (g : Ddg) (a : ℕ)
    → succs (add_edge s d g) a
      ≡ (if edge g s d then succs g a else if s == a then succs g a ++ d ∷ [] else succs g a)
unfolding add_edge
succs-add_edge s d g a = ground arith

module _ (s d : ℕ) (g : Ddg) (w : IsWf g) where
  mirrored-add_edge : (a b : ℕ) → elem a (preds (add_edge s d g) b) ≡ edge (add_edge s d g) a b
  mirrored-add_edge a b = ground (
    arith,
    preds-add_edge s d g b,
    edge-add_edge s d g a b,
    elem-append a (preds g b) (s ∷ []),
    w.mirrored a b,
  )

  Distinct-succs-add_edge : (a : ℕ) → Distinct (succs (add_edge s d g) a)
  Distinct-succs-add_edge a =
      ground (arith, succs-add_edge s d g a, w.distinct_succs a, Distinct-snoc (succs g a) d)

  Distinct-preds-add_edge : (a : ℕ) → Distinct (preds (add_edge s d g) a)
  Distinct-preds-add_edge a = ground (
    arith,
    preds-add_edge s d g a,
    w.distinct_preds a,
    Distinct-snoc (preds g a) s,
    w.mirrored s a,
  )

  counted-add_edge :
      (a : ℕ) → ((add_edge s d g).heap a).pred_count ≡ pos (length (preds (add_edge s d g) a))
  unfolding add_edge
  counted-add_edge a = ground (arith, w.counted a, w.counted d, length-append (preds g d) (s ∷ []))

-- `addEdge` between two nodes of the graph keeps it well formed.
pub add_edge-IsWf :
    (s d : ℕ) (g : Ddg)
    → elem s g.nodes ≡ true
    → elem d g.nodes ≡ true
    → IsWf g
    → IsWf (add_edge s d g)
add_edge-IsWf s d g ms md w = record {
  mirrored = mirrored-add_edge s d g w;
  distinct_succs = Distinct-succs-add_edge s d g w;
  distinct_preds = Distinct-preds-add_edge s d g w;
  counted = counted-add_edge s d g w;
  closed_from =
      λ a b e. ground (arith, nodes-add_edge s d g, edge-add_edge s d g a b, w.closed_from a b);
  closed_to =
      λ a b e. ground (arith, nodes-add_edge s d g, edge-add_edge s d g a b, w.closed_to a b);
}
