-- ===== src/Manifest/FindCycle/Walks.antt =====
-- Walks along the edges, and the part of a walk that a cycle is.
use cee.Prelude.{
  ap, String, ◌≡◌, refl, true, some, List, [], ◌∷◌, ◌++◌, ◌==◌, has, eq_iff, Bool-cases, inl, inr,
}
use cee.Manifest.FindCycle.{Edges, edges_of, path_from}

module _ (edges : Edges) where
  abbrev pub Edge : String → String → Type 0
  Edge x y = has y (edges_of edges x) ≡ true

  -- each node has an edge to the next
  abbrev pub Walk : List String → Type 0
  Walk [] = Unit
  Walk (x ∷ []) = Unit
  Walk (x ∷ y ∷ rest) = Edge x y × Walk (y ∷ rest)

  -- a walk of at least one edge from a node back to it
  abbrev pub IsCycle : List String → Type 0
  IsCycle c = (n : String) × (between : List String) × (c ≡ n ∷ (between ++ n ∷ [])) × Walk c

  pub Walk-append :
      (path : List String) (x y : String)
      → Walk (path ++ x ∷ [])
      → Edge x y
      → Walk ((path ++ x ∷ []) ++ y ∷ [])
  Walk-append [] x y w e = (e, tt)
  Walk-append (p ∷ []) x y w e = let last : Walk (x ∷ y ∷ []) = (e, tt) in (w.0, last)
  Walk-append (p ∷ q ∷ path) x y w e = (w.0, Walk-append (q ∷ path) x y w.1 e)

  Walk-tail : (n : String) (path : List String) → Walk (n ∷ path) → Walk path
  Walk-tail n [] w = tt
  Walk-tail n (p ∷ path) w = w.1

  -- from a node on the path on, the path and the node are a cycle
  pub path_from-IsCycle :
      (next : String) (path : List String)
      → Walk (path ++ next ∷ [])
      → has next path ≡ true
      → (loop : List String) × (path_from next path ≡ some loop) × IsCycle (loop ++ next ∷ [])
  unfolding path_from has
  path_from-IsCycle next [] w h = absurd (cc h)
  path_from-IsCycle next (n ∷ path) w h = elim (Bool-cases (n == next)) [
    | inl e ↦
        let closed : IsCycle ((n ∷ path) ++ next ∷ []) =
          (next, path, ap (λ x. x ∷ (path ++ next ∷ [])) ((eq_iff n next).0 e), w) in
        (n ∷ path, rw e refl, closed)
    | inr e ↦
        let (loop, p, c) =
          path_from-IsCycle next path (Walk-tail n (path ++ next ∷ []) w) (rw e at h) in
        (loop, rw e p, c)
  ]
