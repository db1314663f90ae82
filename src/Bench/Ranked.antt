-- ===== src/Bench/Ranked.antt =====
-- The order of `Leaderboard`.
use Prim.Native.String.{[] as empty, ◌∷◌ as ◌then_char◌}
use native.Mathlib.Nat.{mul-le-mul_right, le_of_mul-le-mul_right, mul_comm, mul_assoc}
use mathlib.Core.List.{Perm}
use mathlib.Core.List.Perm
use cee.Prelude.{
  ◌+◌, ℕ, ◌*◌, ◌≤◌, ◌<◌, ◌≡◌, refl, sym, ap, ◌∙◌, String, true, false, List, [], ◌∷◌, inl, inr,
  arith, Bool-cases,
}
use cee.Scorecard.{determinism_ratio, cognitive_ops}
use cee.Bench.{
  ops, eqb, code, Char, is_same_ratio, ltb, Result, text_less, ratio, ranks_above, insert_ranked,
  leaderboard,
}

text_less-flip : (s t : String) → text_less s t ≡ true → text_less t s ≡ false
unfolding text_less
text_less-flip empty empty h = absurd (cc h)
text_less-flip empty (d then_char t) h = refl
text_less-flip (c then_char s) empty h = absurd (cc h)
text_less-flip (c then_char s) (d then_char t) h = ground (arith, h, text_less-flip s t)

text_less_trans :
    (s t u : String) → text_less s t ≡ false → text_less t u ≡ false → text_less s u ≡ false
unfolding text_less
text_less_trans s t empty h k = refl
text_less_trans s empty (e then_char u) h k = absurd (cc k)
text_less_trans empty (d then_char t) (e then_char u) h k = absurd (cc h)
text_less_trans (c then_char s) (d then_char t) (e then_char u) h k =
    ground (arith, h, k, text_less_trans s t u)

swapped : (a b c : ℕ) → a * b * c ≡ a * c * b
swapped a b c = mul_assoc a b c ∙ ap (λ x. a * x) (mul_comm b c) ∙ sym (mul_assoc a c b)

-- p is not above q, and q is not above r
ratio_trans :
    (p q r : ℕ × ℕ)
    → 0 < q.1
    → p.0 * q.1 ≤ q.0 * p.1
    → q.0 * r.1 ≤ r.0 * q.1
    → p.0 * r.1 ≤ r.0 * p.1
ratio_trans p q r pos h k =
    let first : p.0 * q.1 * r.1 ≤ q.0 * p.1 * r.1 = mul-le-mul_right r.1 h in
    let second : q.0 * r.1 * p.1 ≤ r.0 * q.1 * p.1 = mul-le-mul_right p.1 k in
    let left = swapped p.0 r.1 q.1 in
    let middle = swapped q.0 p.1 r.1 in
    let right = swapped r.0 q.1 p.1 in
    let both : p.0 * r.1 * q.1 ≤ r.0 * p.1 * q.1 = omega arith in le_of_mul-le-mul_right both pos

ratio_pos : (r : Result) → 0 < (ratio r).1
unfolding determinism_ratio cognitive_ops
ratio_pos r = ground arith

-- what stands above another does not stand below it
ranks_above-flip : (r s : Result) → ranks_above r s ≡ true → ranks_above s r ≡ false
unfolding ranks_above
ranks_above-flip r s h = ground (arith, h, text_less-flip r.plugin_name s.plugin_name)

ranks_above_trans :
    (r s t : Result) → ranks_above r s ≡ false → ranks_above s t ≡ false → ranks_above r t ≡ false
unfolding ranks_above
ranks_above_trans r s t h k = ground (
  arith,
  h,
  k,
  ratio_trans (ratio r) (ratio s) (ratio t) (ratio_pos s),
  ratio_trans (ratio s) (ratio t) (ratio r) (ratio_pos t),
  ratio_trans (ratio t) (ratio r) (ratio s) (ratio_pos r),
  text_less_trans r.plugin_name s.plugin_name t.plugin_name,
)

-- The order of texts, letter by letter.
pub data TextUpTo : String → String → Type 0 where
  ends : {t : String} → TextUpTo empty t
  below : {c d : Char} {s t : String} → code c < code d → TextUpTo (c then_char s) (d then_char t)
  alike :
      {c d : Char} {s t : String}
      → code c ≡ code d
      → TextUpTo s t
      → TextUpTo (c then_char s) (d then_char t)

-- Why a result may stand above another: a greater part of its operations is deterministic, or as great a
-- part of more operations, or as great a part of as many and a name that comes no later. A result without
-- operations counts as wholly deterministic.
pub data MayStandAbove (r s : Result) : Type 0 where
  greater_part :
      (determinism_ratio s.scorecard).0 * (determinism_ratio r.scorecard).1
        < (determinism_ratio r.scorecard).0 * (determinism_ratio s.scorecard).1
      → MayStandAbove r s
  more_operations :
      (determinism_ratio r.scorecard).0 * (determinism_ratio s.scorecard).1
        ≡ (determinism_ratio s.scorecard).0 * (determinism_ratio r.scorecard).1
      → s.scorecard.deterministic_steps + s.scorecard.llm_calls
        < r.scorecard.deterministic_steps + r.scorecard.llm_calls
      → MayStandAbove r s
  earlier_name :
      (determinism_ratio r.scorecard).0 * (determinism_ratio s.scorecard).1
        ≡ (determinism_ratio s.scorecard).0 * (determinism_ratio r.scorecard).1
      → r.scorecard.deterministic_steps + r.scorecard.llm_calls
        ≡ s.scorecard.deterministic_steps + s.scorecard.llm_calls
      → TextUpTo r.plugin_name s.plugin_name
      → MayStandAbove r s

text_less-TextUpTo : (s t : String) → text_less t s ≡ false → TextUpTo s t
unfolding text_less
text_less-TextUpTo empty t h = ends
text_less-TextUpTo (c then_char s) empty h = absurd (cc h)
text_less-TextUpTo (c then_char s) (d then_char t) h = elim (Bool-cases (ltb (code d) (code c))) [
  | inl b ↦ absurd (cc (rw b at h))
  | inr b ↦ elim (Bool-cases (eqb (code d) (code c))) [
    | inl q ↦ alike (ground (arith, q)) (text_less-TextUpTo s t (rw (b, q) at h))
    | inr q ↦ below (ground (arith, b, q))
  ]
]

-- the order of the sort, read as the reasons
ranks_above-MayStandAbove : (r s : Result) → ranks_above s r ≡ false → MayStandAbove r s
unfolding ranks_above cognitive_ops
ranks_above-MayStandAbove r s h = elim (Bool-cases (is_same_ratio (ratio s) (ratio r))) [
  | inr b ↦ greater_part (ground (arith, b, h))
  | inl b ↦ elim (Bool-cases (eqb (ops s) (ops r))) [
    | inr q ↦ more_operations (ground (arith, b)) (ground (arith, b, q, h))
    | inl q ↦
        earlier_name (ground (arith, b)) (ground (arith, q))
          (text_less-TextUpTo r.plugin_name s.plugin_name (rw (b, q) at h))
  ]
]

-- none of the results stands above this one
abbrev NoneAbove : Result → List Result → Type 0
NoneAbove r [] = Unit
NoneAbove r (s ∷ ranked) = (ranks_above s r ≡ false) × NoneAbove r ranked

abbrev IsRanked : List Result → Type 0
IsRanked [] = Unit
IsRanked (r ∷ ranked) = NoneAbove r ranked × IsRanked ranked

NoneAbove-trans :
    (r s : Result) (ranked : List Result)
    → ranks_above s r ≡ false
    → NoneAbove s ranked
    → NoneAbove r ranked
NoneAbove-trans r s [] h all = tt
NoneAbove-trans r s (t ∷ ranked) h (first, rest) =
    (ranks_above_trans t s r first h, NoneAbove-trans r s ranked h rest)

NoneAbove-insert_ranked :
    (r s : Result) (ranked : List Result)
    → ranks_above r s ≡ false
    → NoneAbove s ranked
    → NoneAbove s (insert_ranked r ranked)
unfolding insert_ranked
NoneAbove-insert_ranked r s [] h all = (h, tt)
NoneAbove-insert_ranked r s (t ∷ ranked) h (first, rest) = elim (Bool-cases (ranks_above t r)) [
  | inl b ↦ rw (b) (first, NoneAbove-insert_ranked r s ranked h rest)
  | inr b ↦ let below : NoneAbove s (t ∷ ranked) = (first, rest) in rw (b) (h, below)
]

insert_ranked-IsRanked :
    (r : Result) (ranked : List Result) → IsRanked ranked → IsRanked (insert_ranked r ranked)
unfolding insert_ranked
insert_ranked-IsRanked r [] h = (tt, tt)
insert_ranked-IsRanked r (s ∷ ranked) (all, h) = elim (Bool-cases (ranks_above s r)) [
  | inl b ↦ rw (b) (
    NoneAbove-insert_ranked r s ranked (ranks_above-flip s r b) all,
    insert_ranked-IsRanked r ranked h,
  )
  | inr b ↦
      let tail : IsRanked (s ∷ ranked) = (all, h) in
      let below : NoneAbove r (s ∷ ranked) = (b, NoneAbove-trans r s ranked b all) in
      rw (b) (below, tail)
]

insert_ranked-Perm :
    (r : Result) (ranked : List Result) → Perm (r ∷ ranked) (insert_ranked r ranked)
unfolding insert_ranked
insert_ranked-Perm r [] = Perm.refl (r ∷ [])
insert_ranked-Perm r (s ∷ ranked) = elim (Bool-cases (ranks_above s r)) [
  | inl b ↦ rw (b) (Perm.trans (Perm.swap s r ranked) (Perm.cons s (insert_ranked-Perm r ranked)))
  | inr b ↦ rw (b) (Perm.refl (r ∷ s ∷ ranked))
]

-- Each result may stand above all that stand below it.
abbrev pub AllBelow : Result → List Result → Type 0
AllBelow r [] = Unit
AllBelow r (s ∷ ranked) = MayStandAbove r s × AllBelow r ranked

abbrev pub IsBoard : List Result → Type 0
IsBoard [] = Unit
IsBoard (r ∷ ranked) = AllBelow r ranked × IsBoard ranked

NoneAbove-AllBelow : (r : Result) (ranked : List Result) → NoneAbove r ranked → AllBelow r ranked
NoneAbove-AllBelow r [] h = tt
NoneAbove-AllBelow r (s ∷ ranked) (first, rest) =
    (ranks_above-MayStandAbove r s first, NoneAbove-AllBelow r ranked rest)

IsRanked-IsBoard : (ranked : List Result) → IsRanked ranked → IsBoard ranked
IsRanked-IsBoard [] h = tt
IsRanked-IsBoard (r ∷ ranked) (all, h) =
    (NoneAbove-AllBelow r ranked all, IsRanked-IsBoard ranked h)

leaderboard-IsRanked : (results : List Result) → IsRanked (leaderboard results)
unfolding leaderboard
leaderboard-IsRanked [] = tt
leaderboard-IsRanked (r ∷ results) =
    insert_ranked-IsRanked r (leaderboard results) (leaderboard-IsRanked results)

leaderboard-Perm : (results : List Result) → Perm results (leaderboard results)
unfolding leaderboard
leaderboard-Perm [] = Perm.refl []
leaderboard-Perm (r ∷ results) =
    Perm.trans (Perm.cons r (leaderboard-Perm results)) (insert_ranked-Perm r (leaderboard results))

-- The board has the results that it is made from, each as often, and each may stand above all below it:
-- a greater part of its operations is deterministic, or as great a part of more operations, or as great a
-- part of as many operations and its name comes no later.
pub leaderboard_lem :
    (results : List Result) → Perm results (leaderboard results) × IsBoard (leaderboard results)
leaderboard_lem results = (
  leaderboard-Perm results,
  IsRanked-IsBoard (leaderboard results) (leaderboard-IsRanked results),
)
