-- ===== src/Manifest/FindCycle/Marks.antt =====
-- The marks of the search: what they say of the path and of the nodes that are done, and how many
-- nodes are still without a mark.
use cee.Prelude.{
  if◌then◌else◌, String, ◌≡◌, true, false, none, some, List, [], ◌∷◌, ◌++◌, ◌==◌, has, arith,
  eq_iff, eq_refl, Bool-cases, inl, inr, ◌↔◌, ◌≤◌, ◌<◌, ℕ, suc, length,
}
use cee.Maps.{Map, lookup, insert, lookup-insert}
use cee.Manifest.FindCycle.{Mark, on_stack, done, Edges}
use cee.Manifest.FindCycle.Walks.{Edge}

pub has-append :
    (x n : String) (xs : List String) → has x (xs ++ n ∷ []) ≡ (if has x xs then true else n == x)
unfolding has
has-append x n [] = ground arith
has-append x n (y ∷ xs) = ground (arith, has-append x n xs)

module _ {V : Type 0} where
  -- the nodes without a mark
  unfoldable pub unvisited : Map V → List String → ℕ
  unvisited state [] = 0
  unvisited state (n ∷ nodes) =
      let rest = unvisited state nodes in elim (lookup n state) [ none ↦ suc rest | some _ ↦ rest ]

  -- no mark is taken back
  abbrev pub Grows : Map V → Map V → Type 0
  Grows before after = (x : String) → lookup x after ≡ none → lookup x before ≡ none

  pub Grows-insert : (x : String) (m : V) (state : Map V) → Grows state (insert x m state)
  Grows-insert x m state y h = ground (arith, lookup-insert x y m state)

  pub unvisited-Grows :
      (before after : Map V) (nodes : List String)
      → Grows before after
      → unvisited after nodes ≤ unvisited before nodes
  unfolding unvisited
  unvisited-Grows before after [] g = omega arith
  unvisited-Grows before after (n ∷ nodes) g =
      ground (arith, unvisited-Grows before after nodes g, g n)

  pub unvisited-insert :
      (x : String) (m : V) (state : Map V) (nodes : List String)
      → has x nodes ≡ true
      → lookup x state ≡ none
      → unvisited (insert x m state) nodes < unvisited state nodes
  unfolding unvisited has
  unvisited-insert x m state [] h e = absurd (cc h)
  unvisited-insert x m state (n ∷ nodes) h e = elim (Bool-cases (n == x)) [
    | inl p ↦ ground (
      arith,
      (eq_iff n x).0 p,
      lookup-insert x n m state,
      unvisited-Grows state (insert x m state) nodes (Grows-insert x m state),
    )
    | inr p ↦ ground (
      arith,
      eq_iff n x,
      eq_iff x n,
      lookup-insert x n m state,
      unvisited-insert x m state nodes (rw p at h) e,
    )
  ]

  pub unvisited_bound : (state : Map V) (nodes : List String) → unvisited state nodes ≤ length nodes
  unfolding unvisited
  unvisited_bound state [] = omega arith
  unvisited_bound state (n ∷ nodes) = ground (arith, unvisited_bound state nodes)

module _ (edges : Edges) where
  -- The nodes that are done, the last one first: each was done after all of its targets.
  abbrev pub Sorted : List String → Type 0
  Sorted [] = Unit
  Sorted (x ∷ xs) =
      (has x xs ≡ false) × ((y : String) → Edge edges x y → has y xs ≡ true) × Sorted xs

  -- The marks of a search whose path is `path`, with the nodes that are done.
  pub record Marks (path : List String) (state : Map Mark) (finished : List String) : Type 0 where
    pub open_nodes : (x : String) → (lookup x state ≡ some on_stack) ↔ (has x path ≡ true)
    pub done_nodes : (x : String) → (lookup x state ≡ some done) ↔ (has x finished ≡ true)
    pub sorted : Sorted finished

  pub Marks-empty : Marks [] [] []
  unfolding lookup has
  Marks-empty = record {
    open_nodes = λ x. ((λ h. absurd (cc h)), (λ h. absurd (cc h)));
    done_nodes = λ x. ((λ h. absurd (cc h)), (λ h. absurd (cc h)));
    sorted = tt;
  }

  -- a node without a mark is put on the path
  pub Marks-enter :
      (path : List String) (state : Map Mark) (finished : List String) (node : String)
      → Marks path state finished
      → lookup node state ≡ none
      → Marks (path ++ node ∷ []) (insert node on_stack state) finished
  Marks-enter path state finished node h fresh = record {
    open_nodes = λ x.
        ground (arith, h.open_nodes x, has-append x node path, lookup-insert node x on_stack state);
    done_nodes =
        λ x. ground (arith, h.done_nodes x, eq_iff node x, lookup-insert node x on_stack state);
    sorted = h.sorted;
  }

  -- the last node of the path is done
  pub Marks-leave :
      (path : List String) (state : Map Mark) (finished : List String) (node : String)
      → Marks (path ++ node ∷ []) state finished
      → has node path ≡ false
      → ((y : String) → Edge edges node y → has y finished ≡ true)
      → Marks path (insert node done state) (node ∷ finished)
  unfolding has
  Marks-leave path state finished node h fresh targets = record {
    open_nodes = λ x. ground (
      arith,
      h.open_nodes x,
      has-append x node path,
      eq_iff node x,
      eq_refl node,
      lookup-insert node x done state,
    );
    done_nodes =
        λ x. ground (arith, h.done_nodes x, eq_iff node x, lookup-insert node x done state);
    sorted = (not_done, targets, h.sorted);
  }
    where
      on_path : has node (path ++ node ∷ []) ≡ true
      on_path = ground (arith, has-append node node path, eq_refl node)

      not_done : has node finished ≡ false
      not_done = elim (Bool-cases (has node finished)) [
        | inl p ↦ absurd (cc ((h.open_nodes node).1 on_path, (h.done_nodes node).1 p))
        | inr p ↦ p
      ]
