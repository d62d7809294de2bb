-- ===== src/Capacity/WorstFit.antt =====
-- internal/capacity/capacity.go: which node placePod chooses.
use vtafarm_api.Base.{
  ℕ, suc, ◌≤◌, true, false, ◌&&◌, List, [], ◌∷◌, ◌++◌, Option, none, some, ltb, ◌≡◌, refl, arith,
  All, All-append, All-imp, get_elem?, set, length, Bool-cases, inl, inr,
}
use mathlib.Core.Path.{subst}
use mathlib.Core.List.{append-nil}
use vtafarm_api.Capacity.Totals.{get_elem?-append, get_elem?-length, append_snoc, length_snoc}
use vtafarm_api.Capacity.Placement.{
  Component, NodeFree, has_room, better_node, best_node, take_from, place_pod,
}

-- What the loop over the nodes promises of its result: nothing fits, or the best node fits, stands
-- at its index, and no node that fits has more memory.
abbrev pub Best : Component → List NodeFree → Option (ℕ × NodeFree) → Type 0
Best comp nodes none = All (λ n. has_room comp n ≡ false) nodes
Best comp nodes (some (i, n)) =
    (get_elem? nodes i ≡ some n)
    × (has_room comp n ≡ true)
    × All (λ m. has_room comp m ≡ true → m.mem_bytes ≤ n.mem_bytes) nodes

module _ (comp : Component) where
  better_node-Best :
      (nodes : List NodeFree) (n : NodeFree) (best : Option (ℕ × NodeFree))
      → Best comp nodes best
      → Best comp (nodes ++ n ∷ []) (better_node comp (length nodes) n best)
  unfolding better_node
  better_node-Best nodes n none h = elim (Bool-cases (has_room comp n)) [
    | inl e ↦ rw e (
      get_elem?-length nodes n,
      e,
      All-append _ nodes (n ∷ []) (All-imp _ _ nodes (λ m f t. ground (arith, f, t)) h)
          ((λ t. omega arith), tt),
    )
    | inr e ↦ rw e (All-append _ nodes (n ∷ []) h (e, tt))
  ]
  better_node-Best nodes n (some (j, m)) (at, fits, most) =
      elim (Bool-cases (has_room comp n && ltb m.mem_bytes n.mem_bytes)) [
        | inl e ↦ rw e (
          get_elem?-length nodes n,
          ground (arith, e),
          All-append _ nodes (n ∷ []) (All-imp _ _ nodes (λ k le t. ground (arith, e, le t)) most)
              ((λ t. omega arith), tt),
        )
        | inr e ↦ rw e (
          get_elem?-append nodes (n ∷ []) j m at,
          fits,
          All-append _ nodes (n ∷ []) most ((λ t. ground (arith, e, t)), tt),
        )
      ]

  best_node-Best :
      (nodes rest : List NodeFree) (best : Option (ℕ × NodeFree))
      → Best comp nodes best
      → Best comp (nodes ++ rest) (best_node comp (length nodes) best rest)
  unfolding best_node
  best_node-Best nodes [] best h = rw (append-nil nodes) h
  best_node-Best nodes (n ∷ rest) best h =
      let next = better_node comp (length nodes) n best in
      subst (λ ns. Best comp ns (best_node comp (suc (length nodes)) next rest))
        (append_snoc nodes n rest)
        (subst (λ k. Best comp ((nodes ++ n ∷ []) ++ rest) (best_node comp k next rest))
          (length_snoc nodes n)
          (best_node-Best (nodes ++ n ∷ []) rest next (better_node-Best nodes n best h)))

-- What placePod promises: where it fails no node has room; where it succeeds, the one node that
-- changes had room for the component, no other node with room has more memory, and the
-- component's request is taken from it.
abbrev pub WorstFits : Component → List NodeFree → Option (List NodeFree) → Type 0
WorstFits comp nodes none = All (λ n. has_room comp n ≡ false) nodes
WorstFits comp nodes (some left) =
    (i : ℕ) × (n : NodeFree) × Best comp nodes (some (i, n))
    × (left ≡ set nodes i (take_from comp n))

place_pod_of :
    (comp : Component) (nodes : List NodeFree) (best : Option (ℕ × NodeFree))
    → Best comp nodes best
    → WorstFits comp nodes
        (elim best [ none ↦ none | some (i, n) ↦ some (set nodes i (take_from comp n)) ])
place_pod_of comp nodes none h = h
place_pod_of comp nodes (some (i, n)) h = (i, n, h, refl)

-- Modelling internal/capacity/capacity.go: on any nodes, placePod fails only where no node has
-- room for the component; else it takes the component's request, to the unit, from one node, which
-- had room for it, and every node with room had at most the memory of that node.
pub place_pod_fits :
    (comp : Component) (nodes : List NodeFree) → WorstFits comp nodes (place_pod nodes comp)
unfolding place_pod
place_pod_fits comp nodes =
    place_pod_of comp nodes (best_node comp 0 none nodes) (best_node-Best comp [] nodes none tt)
