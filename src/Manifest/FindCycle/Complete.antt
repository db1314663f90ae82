-- ===== src/Manifest/FindCycle/Complete.antt =====
-- `findCycle` finds a cycle exactly when there is one.
use cee.Prelude.{
  false, if◌then◌else◌, String, ◌≡◌, refl, sym, subst, true, Option, none, some, List, [], ◌∷◌,
  ◌++◌, ◌==◌, has, arith, eq_iff, eq_refl, Bool-cases, inl, inr, ◌↔◌, ◌≤◌, ◌<◌, ℕ, suc, length,
}
use cee.Maps.{Map, lookup}
use cee.Manifest.FindCycle.{
  Mark, on_stack, done, Edges, Search, cycle, clear, exhausted, visit, visit_root, visit_all, found,
  find_cycle,
}
use cee.Manifest.FindCycle.Walks.{Edge, Walk, IsCycle}
use cee.Manifest.FindCycle.Marks.{unvisited_bound, Sorted, Marks, Marks-empty}
use cee.Manifest.FindCycle.Visits.{
  Within, Answer, Answer-and_then, Answer-weaken, Visited, Visited-cons, visit_lem,
}

-- How many nodes were done when a node was: the depth below it.
unfoldable pub rank : List String → String → ℕ
rank [] x = 0
rank (n ∷ finished) x = let rest = rank finished x in if n == x then suc (length finished) else rest

pub rank_bound : (finished : List String) (x : String) → rank finished x ≤ length finished
unfolding rank
rank_bound [] x = omega arith
rank_bound (n ∷ finished) x = ground (arith, rank_bound finished x)

module _ (edges : Edges) where
  -- An edge from a node that is done leads to one of smaller rank.
  pub rank_lem :
      (finished : List String)
      → Sorted edges finished
      → (x y : String) → has x finished ≡ true
      → Edge edges x y
      → (has y finished ≡ true) × (rank finished y < rank finished x)
  unfolding rank has
  rank_lem [] s x y h e = absurd (cc h)
  rank_lem (n ∷ finished) (fresh, targets, s) x y h e = elim (Bool-cases (n == x)) [
    | inl p ↦
        let t = targets y (subst (λ z. Edge edges z y) (sym ((eq_iff n x).0 p)) e) in
        ground (arith, eq_iff n y, rank_bound finished y)
    | inr p ↦
        let (known, less) = rank_lem finished s x y (rw p at h) e in ground (arith, eq_iff n y)
  ]

  Walk-rank :
      (finished : List String)
      → Sorted edges finished
      → (x y : String) (between : List String) → has x finished ≡ true
      → Walk edges (x ∷ (between ++ y ∷ []))
      → rank finished y < rank finished x
  Walk-rank finished s x y [] h w = (rank_lem finished s x y h w.0).1
  Walk-rank finished s x y (z ∷ between) h w =
      let (known, less) = rank_lem finished s x z h w.0 in
      omega (arith, less, Walk-rank finished s z y between known w.1)

  -- Where every node is done there is no cycle.
  Sorted-acyclic :
      (finished : List String)
      → Sorted edges finished
      → ((x y : String) → Edge edges x y → has x finished ≡ true)
      → (c : List String) → ¬ IsCycle edges c
  Sorted-acyclic finished s known c (n, [], e, w) =
      let first : Walk edges (n ∷ n ∷ []) = subst (Walk edges) e w in
      omega (arith, Walk-rank finished s n n [] (known n n first.0) first)
  Sorted-acyclic finished s known c (n, m ∷ between, e, w) =
      let first : Walk edges (n ∷ m ∷ (between ++ n ∷ [])) = subst (Walk edges) e w in
      omega (arith, Walk-rank finished s n n (m ∷ between) (known n m first.0) first)

  module _ (nodes : List String)
      (inside : (x y : String) → Edge edges x y → has y nodes ≡ true) where
    -- the loop over the roots, from any marks with an empty path
    VisitsAll : List String → Type 0
    VisitsAll roots =
        (state : Map Mark) (finished : List String)
        → Marks edges [] state finished
        → Answer edges (Visited edges [] state finished roots)
            (visit_all edges (length nodes) roots state)

    visit_root_lem :
        (n : String) (roots : List String) (state : Map Mark) (finished : List String)
        → VisitsAll roots
        → Marks edges [] state finished
        → has n nodes ≡ true
        → (o : Option Mark) → lookup n state ≡ o
        → Answer edges
            (Visited edges [] state finished (n ∷ roots))
            (visit_root edges (length nodes) n state (visit_all edges (length nodes) roots) o)
    unfolding VisitsAll has
    visit_root_lem n roots state finished ih h known = split
      where
        rest_lem :
            (middle : Map Mark) (between : List String)
            → Visited edges [] state finished (n ∷ []) middle between
            → Answer edges
                (Visited edges [] state finished (n ∷ roots))
                (visit_all edges (length nodes) roots middle)
        rest_lem middle between v =
            Answer-weaken edges (Visited edges [] middle between roots) _
              (visit_all edges (length nodes) roots middle) (ih middle between v.marks)
              (Visited-cons edges [] state middle finished between roots n v.grows v.kept
                (v.new n (ground (arith, eq_refl n))))

        split :
            (o : Option Mark)
            → lookup n state ≡ o
            → Answer edges
                (Visited edges [] state finished (n ∷ roots))
                (visit_root edges (length nodes) n state (visit_all edges (length nodes) roots) o)
        split none e =
            Answer-and_then edges (Visited edges [] state finished (n ∷ [])) _
              (visit edges (length nodes) n [] state) _
              (visit_lem edges nodes inside (length nodes) n [] state finished h e known
                (unvisited_bound state nodes) tt)
              rest_lem
        split (some on_stack) e = absurd (cc ((h.open_nodes n).0 e))
        split (some done) e = rest_lem state finished (record {
          marks = h;
          grows = λ x p. p;
          kept = λ x p. p;
          new = λ x p. ground (arith, eq_iff n x, h.done_nodes n);
        })

    visit_all_lem :
        (roots : List String)
        → ((x : String) → has x roots ≡ true → has x nodes ≡ true)
        → VisitsAll roots
    unfolding visit_all has VisitsAll
    visit_all_lem [] known state finished h = (
      finished,
      record { marks = h; grows = λ x p. p; kept = λ x p. p; new = λ x p. absurd (cc p) },
    )
    visit_all_lem (n ∷ roots) known state finished h =
        visit_root_lem n roots state finished (visit_all_lem roots (λ x p. known x (ground arith)))
          h (known n (ground (arith, eq_refl n))) (lookup n state) refl

    -- Either a cycle is found and is one, or every node was done after its targets.
    abbrev pub Decided : Option (List String) → Type 0
    Decided (some c) = IsCycle edges c
    Decided none = (finished : List String) × Sorted edges finished × Within nodes finished

    found_lem : (r : Search) → Answer edges (Visited edges [] [] [] nodes) r → Decided (found r)
    found_lem (cycle c) a = a
    found_lem (clear state) (finished, v) = (finished, v.marks.sorted, v.new)
    found_lem exhausted a = absurd a

    pub find_cycle-Decided : Decided (find_cycle nodes edges)
    unfolding find_cycle VisitsAll
    find_cycle-Decided = found_lem _ (visit_all_lem nodes (λ x p. p) [] [] (Marks-empty edges))

  -- Where every edge leads from one of the nodes to one of them, `findCycle` answers with a cycle if
  -- there is one, a walk of at least one edge from a node back to it, and with nil exactly if there is
  -- none.
  pub find_cycle_lem :
      (nodes : List String)
      → ((x y : String) → Edge edges x y → (has x nodes ≡ true) × (has y nodes ≡ true))
      → ((c : List String) → find_cycle nodes edges ≡ some c → IsCycle edges c)
        × ((find_cycle nodes edges ≡ none) ↔ ((c : List String) → ¬ IsCycle edges c))
  find_cycle_lem nodes inside =
      split (find_cycle nodes edges) (find_cycle-Decided nodes (λ x y e. (inside x y e).1))
    where
      split :
          (o : Option (List String))
          → Decided nodes (λ x y e. (inside x y e).1) o
          → ((c : List String) → o ≡ some c → IsCycle edges c)
            × ((o ≡ none) ↔ ((c : List String) → ¬ IsCycle edges c))
      split (some c) d =
          let iff : (◌≡◌ {A = Option (List String)} (some c) none)
              ↔ ((c : List String) → ¬ IsCycle edges c) =
            ((λ e. absurd (cc e)), (λ no. absurd (no c d))) in
          ((λ c' e. let same : c ≡ c' = cc e in subst (IsCycle edges) same d), iff)
      split none (finished, s, all) =
          let iff : (◌≡◌ {A = Option (List String)} none none)
              ↔ ((c : List String) → ¬ IsCycle edges c) =
            ((λ e. Sorted-acyclic finished s (λ x y p. all x (inside x y p).0)), (λ no. refl)) in
          ((λ c e. absurd (cc e)), iff)

-- The nodes that are done, without those that are not among the nodes.
unfoldable pub among : List String → List String → List String
among nodes [] = []
among nodes (x ∷ xs) = let rest = among nodes xs in if has x nodes then x ∷ rest else rest

pub has-among :
    (nodes xs : List String) (y : String)
    → has y (among nodes xs) ≡ (if has y nodes then has y xs else false)
unfolding among has
has-among nodes [] y = ground arith
has-among nodes (x ∷ xs) y = ground (arith, has-among nodes xs y, eq_iff x y)

pub Sorted-among :
    (edges : Edges) (nodes xs : List String)
    → ((x y : String) → Edge edges x y → has y nodes ≡ true)
    → Sorted edges xs
    → Sorted edges (among nodes xs)
unfolding among
Sorted-among edges nodes [] inside s = tt
Sorted-among edges nodes (x ∷ xs) inside (fresh, targets, s) = elim (Bool-cases (has x nodes)) [
  | inl e ↦ rw e (
    ground (arith, has-among nodes xs x),
    (λ y p. ground (arith, has-among nodes xs y, targets y p, inside x y p)),
    Sorted-among edges nodes xs inside s,
  )
  | inr e ↦ rw e (Sorted-among edges nodes xs inside s)
]
