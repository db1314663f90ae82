-- ===== src/Manifest/FindCycle/Ranking.antt =====
-- A graph in which no cycle is found has a ranking: numbers up to the number of nodes that fall along
-- every edge.
use cee.Prelude.{
  ap, String, ◌≡◌, refl, true, false, none, List, [], ◌∷◌, ◌==◌, has, arith, eq_iff, ℕ, suc, ◌≤◌,
  ◌<◌, length, if◌then◌else◌, subst, Bool-cases, inl, inr,
}
use cee.Manifest.FindCycle.{Edges, find_cycle}
use cee.Manifest.FindCycle.Walks.{Edge}
use cee.Manifest.FindCycle.Marks.{Sorted}
use cee.Manifest.FindCycle.Visits.{Within}
use cee.Manifest.FindCycle.Complete.{
  rank, rank_bound, rank_lem, Decided, find_cycle-Decided, among, has-among, Sorted-among,
}

-- the list without the first place at which x stands
unfoldable erase : String → List String → List String
erase x [] = []
erase x (y ∷ ys) = let rest = erase x ys in if y == x then ys else y ∷ rest

length-erase :
    (x : String) (ys : List String) → has x ys ≡ true → suc (length (erase x ys)) ≡ length ys
unfolding erase has
length-erase x [] h = absurd (cc h)
length-erase x (y ∷ ys) h = elim (Bool-cases (y == x)) [
  | inl e ↦ rw e refl
  | inr e ↦ rw e (ap suc (length-erase x ys (rw e at h)))
]

has-erase : (x z : String) (ys : List String) → (x == z) ≡ false → has z (erase x ys) ≡ has z ys
unfolding erase has
has-erase x z [] n = refl
has-erase x z (y ∷ ys) n = ground (arith, has-erase x z ys n, eq_iff y x, eq_iff y z, eq_iff x z)

module _ (edges : Edges) where
  Sorted_bound : (xs ys : List String) → Sorted edges xs → Within xs ys → length xs ≤ length ys
  unfolding has
  Sorted_bound [] ys s w = omega arith
  Sorted_bound (x ∷ xs) ys (fresh, targets, s) w =
      let here : has x ys ≡ true = w x (ground (arith, eq_iff x x)) in
      omega (
        arith,
        length-erase x ys here,
        Sorted_bound xs (erase x ys) s (λ z h. ground (arith, has-erase x z ys, w z, eq_iff x z)),
      )

  -- Numbers up to the number of nodes, positive at each node, that fall along every edge.
  pub record Ranking (nodes : List String) (level : String → ℕ) : Type 0 where
    pub falls : (x y : String) → Edge edges x y → level y < level x
    pub positive : (x : String) → has x nodes ≡ true → 0 < level x
    pub bound : (x : String) → level x ≤ length nodes

  rank-positive : (xs : List String) (x : String) → has x xs ≡ true → 0 < rank xs x
  unfolding rank has
  rank-positive [] x h = absurd (cc h)
  rank-positive (n ∷ xs) x h = ground (arith, rank-positive xs x)

  pub find_cycle-Ranking :
      (nodes : List String)
      → ((x y : String) → Edge edges x y → (has x nodes ≡ true) × (has y nodes ≡ true))
      → find_cycle nodes edges ≡ none
      → (level : String → ℕ) × Ranking nodes level
  find_cycle-Ranking nodes inside h =
      let into : (x y : String) → Edge edges x y → has y nodes ≡ true = λ x y e. (inside x y e).1 in
      let (finished, s, all) =
        subst (Decided edges nodes into) h (find_cycle-Decided edges nodes into) in
      let kept = among nodes finished in
      let sorted = Sorted-among edges nodes finished into s in
      let known : Within nodes kept = λ x p. ground (arith, has-among nodes finished x, all x) in
      (
        rank kept,
        record {
          falls = λ x y e. (rank_lem edges kept sorted x y (known x (inside x y e).0) e).1;
          positive = λ x p. rank-positive kept x (known x p);
          bound = λ x. omega (
            arith,
            rank_bound kept x,
            Sorted_bound kept nodes sorted (λ z p. ground (arith, has-among nodes finished z)),
          );
        },
      )
