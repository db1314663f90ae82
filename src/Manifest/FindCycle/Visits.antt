-- ===== src/Manifest/FindCycle/Visits.antt =====
-- What a visit answers: a cycle, or the marks of a search that has finished one node more. It never runs
-- out of fuel.
use cee.Prelude.{
  String, ◌≡◌, refl, true, false, Option, none, some, List, [], ◌∷◌, ◌++◌, has, arith, eq_iff,
  eq_refl, Bool-cases, inl, inr, ◌≤◌, ℕ, zero, suc,
}
use cee.Maps.{Map, lookup, insert, lookup-insert}
use cee.Manifest.FindCycle.{
  Mark, on_stack, done, Edges, edges_of, Search, cycle, clear, exhausted, and_then, follow, visit,
  meet, leave,
}
use cee.Manifest.FindCycle.Walks.{Edge, Walk, IsCycle, Walk-append, path_from-IsCycle}
use cee.Manifest.FindCycle.Marks.{
  unvisited, Grows, unvisited-Grows, unvisited-insert, Marks, Marks-enter, Marks-leave,
}

abbrev pub Within : List String → List String → Type 0
Within xs ys = (x : String) → has x xs ≡ true → has x ys ≡ true

module _ (edges : Edges) where
  -- a cycle, or marks of which `Q` holds
  abbrev pub Answer : (Map Mark → List String → Type 0) → Search → Type 0
  Answer Q (cycle c) = IsCycle edges c
  Answer Q (clear state) = (finished : List String) × Q state finished
  Answer Q exhausted = ⊥

  -- The search came from marks `before` with the nodes of `old` done to these, with the path as it was
  -- and the nodes of `targets` done.
  pub record Visited (path : List String) (before : Map Mark) (old targets : List String)
      (state : Map Mark) (finished : List String) : Type 0 where
    pub marks : Marks edges path state finished
    pub grows : Grows before state
    pub kept : Within old finished
    pub new : Within targets finished

  pub Answer-and_then :
      (Q R : Map Mark → List String → Type 0) (r : Search) (k : Map Mark → Search)
      → Answer Q r
      → ((state : Map Mark) (finished : List String) → Q state finished → Answer R (k state))
      → Answer R (and_then r k)
  Answer-and_then Q R (cycle c) k a f = a
  Answer-and_then Q R (clear state) k a f = f state a.0 a.1
  Answer-and_then Q R exhausted k a f = a

  pub Answer-weaken :
      (Q R : Map Mark → List String → Type 0) (r : Search)
      → Answer Q r
      → ((state : Map Mark) (finished : List String) → Q state finished → R state finished)
      → Answer R r
  Answer-weaken Q R (cycle c) a f = a
  Answer-weaken Q R (clear state) a f = (a.0, f state a.0 a.1)
  Answer-weaken Q R exhausted a f = a

  -- the targets behind one that is done
  pub Visited-cons :
      (path : List String) (before middle : Map Mark) (old between targets : List String)
      (next : String)
      → Grows before middle
      → Within old between
      → has next between ≡ true
      → (state : Map Mark) (finished : List String)
      → Visited path middle between targets state finished
      → Visited path before old (next ∷ targets) state finished
  unfolding has
  Visited-cons path before middle old between targets next g w n state finished v = record {
    marks = v.marks;
    grows = λ x p. g x (v.grows x p);
    kept = λ x p. v.kept x (w x p);
    new = λ x p. ground (arith, eq_iff next x, v.new x, v.kept next n);
  }

  -- what a visit of a node without a mark must answer, for marks with at most `fuel` nodes unvisited
  abbrev pub VisitsWell : List String → ℕ → (String → List String → Map Mark → Search) → Type 0
  VisitsWell nodes fuel again =
      (node : String) (path : List String) (state : Map Mark) (finished : List String)
      → Marks edges path state finished
      → lookup node state ≡ none
      → has node nodes ≡ true
      → unvisited state nodes ≤ fuel
      → Walk edges (path ++ node ∷ [])
      → Answer (Visited path state finished (node ∷ [])) (again node path state)

  module _ (nodes : List String) (inside : (x y : String) → Edge edges x y → has y nodes ≡ true)
      (fuel : ℕ) (again : String → List String → Map Mark → Search)
      (well : VisitsWell nodes fuel again) (path : List String) where
    -- the loop over the targets, from any marks with little enough left to visit
    FollowsWell : List String → Type 0
    FollowsWell targets =
        (state : Map Mark) (finished : List String)
        → Marks edges path state finished
        → unvisited state nodes ≤ fuel
        → Answer (Visited path state finished targets) (follow again path targets state)

    meet_lem :
        (next : String) (targets : List String) (state : Map Mark) (finished : List String)
        → FollowsWell targets
        → Marks edges path state finished
        → unvisited state nodes ≤ fuel
        → has next nodes ≡ true
        → Walk edges (path ++ next ∷ [])
        → (o : Option Mark) → lookup next state ≡ o
        → Answer
            (Visited path state finished (next ∷ targets))
            (meet again path next state (follow again path targets) o)
    unfolding has FollowsWell
    meet_lem next targets state finished ih h enough known walk = split
      where
        rest_lem :
            (middle : Map Mark) (between : List String)
            → Visited path state finished (next ∷ []) middle between
            → Answer
                (Visited path state finished (next ∷ targets))
                (follow again path targets middle)
        rest_lem middle between v =
            Answer-weaken (Visited path middle between targets) _ (follow again path targets middle)
              (ih middle between v.marks
                (omega (arith, unvisited-Grows state middle nodes v.grows)))
              (Visited-cons path state middle finished between targets next v.grows v.kept
                (v.new next (ground (arith, eq_refl next))))

        split :
            (o : Option Mark)
            → lookup next state ≡ o
            → Answer
                (Visited path state finished (next ∷ targets))
                (meet again path next state (follow again path targets) o)
        split none e =
            Answer-and_then (Visited path state finished (next ∷ [])) _ (again next path state) _
              (well next path state finished h e known enough walk) rest_lem
        split (some done) e = rest_lem state finished (record {
          marks = h;
          grows = λ x p. p;
          kept = λ x p. p;
          new = λ x p. ground (arith, eq_iff next x, h.done_nodes next);
        })
        split (some on_stack) e =
            let (loop, p, c) = path_from-IsCycle edges next path walk ((h.open_nodes next).0 e) in
            rw p c

    follow_lem :
        (targets : List String)
        → ((next : String) → has next targets ≡ true → has next nodes ≡ true)
        → ((next : String) → has next targets ≡ true → Walk edges (path ++ next ∷ []))
        → FollowsWell targets
    unfolding follow has FollowsWell
    follow_lem [] known walks state finished h enough = (
      finished,
      record { marks = h; grows = λ x p. p; kept = λ x p. p; new = λ x p. absurd (cc p) },
    )
    follow_lem (next ∷ targets) known walks state finished h enough =
        let head : has next (next ∷ targets) ≡ true = ground (arith, eq_refl next) in
        meet_lem next targets state finished
          (follow_lem targets (λ x p. known x (ground arith)) (λ x p. walks x (ground arith))) h
          enough (known next head) (walks next head) (lookup next state) refl

  -- Every visit answers well, if there is fuel for each node without a mark.
  pub visit_lem :
      (nodes : List String)
      → ((x y : String) → Edge edges x y → has y nodes ≡ true)
      → (fuel : ℕ) → VisitsWell nodes fuel (visit edges fuel)
  unfolding visit FollowsWell has
  visit_lem nodes inside zero node path state finished h fresh known enough walk =
      absurd (omega (arith, enough, unvisited-insert node on_stack state nodes known fresh))
  visit_lem nodes inside (suc fuel) node path state finished h fresh known enough walk =
      let entered = insert node on_stack state in
      let less = unvisited-insert node on_stack state nodes known fresh in
      Answer-and_then (Visited (path ++ node ∷ []) entered finished (edges_of edges node)) _
        (follow (visit edges fuel) (path ++ node ∷ []) (edges_of edges node) entered) (leave node)
        (follow_lem nodes inside fuel (visit edges fuel) (visit_lem nodes inside fuel)
          (path ++ node ∷ []) (edges_of edges node) (λ x p. inside node x p)
          (λ x p. Walk-append edges path node x walk p) entered finished
          (Marks-enter edges path state finished node h fresh) (omega (arith, less, enough)))
        (λ after finished' v. (node ∷ finished', left after finished' v))
    where
      left :
          (after : Map Mark) (finished' : List String)
          → Visited
              (path ++ node ∷ [])
              (insert node on_stack state)
              finished
              (edges_of edges node)
              after
              finished'
          → Visited path state finished (node ∷ []) (insert node done after) (node ∷ finished')
      left after finished' v = record {
        marks = Marks-leave edges path after finished' node v.marks off_path (λ y e. v.new y e);
        grows = λ x p. ground (
          arith,
          v.grows x,
          lookup-insert node x done after,
          lookup-insert node x on_stack state,
        );
        kept = λ x p. ground (arith, v.kept x);
        new = λ x p. ground arith;
      }
        where
          off_path : has node path ≡ false
          off_path = elim (Bool-cases (has node path)) [
            | inl q ↦ absurd (cc ((h.open_nodes node).1 q, fresh))
            | inr q ↦ q
          ]
