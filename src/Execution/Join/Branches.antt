-- ===== src/Execution/Join/Branches.antt =====
-- The join of all branches, from the values that they wrote.
use cee.Prelude.{
  sym, ap, subst, ◌↔◌, String, ◌≡◌, refl, Option, some, List, [], ◌∷◌, ◌++◌, inl, inr, ◌∙◌,
}
use cee.Maps.{lookup}
use cee.Value.{Value, Context}
use cee.Execution.Exec.{Outcome, ◌then◌}
use cee.Execution.Join.{Joining, nothing_joined, Finished, branch_delta, join_branch, join_branches}
use cee.Execution.Join.Agree.{
  values_of, AgreeFrom, last_from, InStep, Settled, entries_values, join_fields-Settled,
  InStep-nothing_joined,
}

-- The values that the branches wrote to a field, in declaration order.
abbrev pub written_values : Context → List Finished → String → List Value
written_values ctx [] f = []
written_values ctx ((branch, result) ∷ bs) f =
    values_of f (branch_delta ctx result.output) ++ written_values ctx bs f

AgreeFrom-append :
    (p : Option Value) (us vs : List Value)
    → AgreeFrom p (us ++ vs) ↔ (AgreeFrom p us × AgreeFrom (last_from p us) vs)
AgreeFrom-append p [] vs = ((λ a. (tt, a)), (λ a. a.1))
AgreeFrom-append p (u ∷ us) vs =
    let ih = AgreeFrom-append (some u) us vs in
    ((λ a. ((a.0, (ih.0 a.1).0), (ih.0 a.1).1)), (λ a. (a.0.0, ih.1 (a.0.1, a.1))))

last_from-append :
    (p : Option Value) (us vs : List Value) → last_from p (us ++ vs) ≡ last_from (last_from p us) vs
last_from-append p [] vs = refl
last_from-append p (u ∷ us) vs = last_from-append (some u) us vs

module _ (step_id : String) where
  -- a join in two parts
  Settled-append :
      (us vs : String → List Value) (j : Joining) (r : Outcome Joining)
      (k : Joining → Outcome Joining)
      → Settled step_id j.joined us r
      → ((j' : Joining) → InStep j' → Settled step_id j'.joined vs (k j'))
      → Settled step_id j.joined (λ f. us f ++ vs f) (r then k)
  Settled-append us vs j r k (inl (j', e, first)) rest = rw e (go (rest j' first.in_step))
    where
      go : Settled step_id j'.joined vs (k j') → Settled step_id j.joined (λ f. us f ++ vs f) (k j')
      go (inl (after, p, second)) = inl (
        after,
        p,
        record {
          in_step = second.in_step;
          agree = λ f.
              (AgreeFrom-append (lookup f j.joined) (us f) (vs f)).1
                (first.agree f, subst (λ o. AgreeFrom o (vs f)) (first.last f) (second.agree f));
          last = λ f.
              second.last f
              ∙ ap (λ o. last_from o (vs f)) (first.last f)
              ∙ sym (last_from-append (lookup f j.joined) (us f) (vs f));
        },
      )
      go (inr refused) = inr (record {
        field = refused.field;
        first_branch = refused.first_branch;
        first_value = refused.first_value;
        second_branch = refused.second_branch;
        second_value = refused.second_value;
        is_conflict = refused.is_conflict;
        disagree = λ a. refused.disagree (
            subst (λ o. AgreeFrom o (vs refused.field)) (sym (first.last refused.field))
              ((AgreeFrom-append (lookup refused.field j.joined) (us refused.field)
                  (vs refused.field)).0
                a).1);
      })
  Settled-append us vs j r k (inr refused) rest = inr (record {
    field = refused.field;
    first_branch = refused.first_branch;
    first_value = refused.first_value;
    second_branch = refused.second_branch;
    second_value = refused.second_value;
    is_conflict = rw refused.is_conflict;
    disagree = λ a.
        refused.disagree
          ((AgreeFrom-append (lookup refused.field j.joined) (us refused.field)
              (vs refused.field)).0
            a).0;
  })

  -- the trace of a join plays no part in it
  InStep-trace : (j : Joining) (t : List String) → InStep j → InStep (record j { trace = t })
  InStep-trace j t h = record { same = h.same; owned = h.owned; free = h.free }

  join_branches-Settled :
      (ctx : Context) (bs : List Finished) (j : Joining)
      → InStep j
      → Settled step_id j.joined (written_values ctx bs) (join_branches step_id ctx bs j)
  unfolding join_branches join_branch
  join_branches-Settled ctx [] j h =
      inl (j, refl, record { in_step = h; agree = λ f. tt; last = λ f. refl })
  join_branches-Settled ctx ((branch, result) ∷ bs) j h =
      Settled-append (entries_values (branch_delta ctx result.output)) (written_values ctx bs) j _
        (join_branches step_id ctx bs)
        (join_fields-Settled step_id branch (branch_delta ctx result.output)
          (record j { trace = j.trace ++ result.trace })
          (InStep-trace j (j.trace ++ result.trace) h))
        (λ j' h'. join_branches-Settled ctx bs j' h')

  -- The branches that succeeded are joined exactly when, for every field, each value that a branch
  -- wrote to it is equal to the one that the branch before wrote. The joined context then gives each
  -- field the last value written to it, and no other field. Otherwise the join is refused with a
  -- conflict that names a field on which the branches disagree.
  pub join_branches_lem :
      (ctx : Context) (bs : List Finished)
      → Settled step_id [] (written_values ctx bs) (join_branches step_id ctx bs nothing_joined)
  join_branches_lem ctx bs = join_branches-Settled ctx bs nothing_joined InStep-nothing_joined
