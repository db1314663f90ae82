-- ===== src/Execution/Join/Agree.antt =====
-- When the join of parallel branches succeeds, and what it makes of each field.
use cee.Prelude.{
  ◌∙◌, subst, eq_refl, Option-cases, ◌↔◌, String, ◌≡◌, refl, Bool, true, false, Option, none, some,
  List, [], ◌∷◌, arith, ◌==◌, eq_iff, if◌then◌else◌, Bool-cases, inl, inr, ◌⊎◌,
}
use cee.Maps.{lookup, lookup-insert}
use cee.Value.{Value, Context, same_value}
use cee.Execution.Exec.{Outcome, ok, err, ◌then◌}
use cee.Execution.Join.{
  conflicting_branch_writes, Joining, nothing_joined, or_null, written, write_field, join_fields,
}

-- The values of one field, in the order of the entries.
abbrev pub values_of : String → Context → List Value
values_of f [] = []
values_of f ((field, value) ∷ fields) =
    let rest = values_of f fields in if field == f then value ∷ rest else rest

-- a field that has no value yet, or an equal one
abbrev pub fits : Option Value → Value → Bool
fits none v = true
fits (some u) v = same_value u v

-- Each value is equal to the one before it, the first to `previous` if there is one.
abbrev pub AgreeFrom : Option Value → List Value → Type 0
AgreeFrom previous [] = Unit
AgreeFrom previous (v ∷ vs) = (fits previous v ≡ true) × AgreeFrom (some v) vs

abbrev pub last_from : Option Value → List Value → Option Value
last_from previous [] = previous
last_from previous (v ∷ vs) = last_from (some v) vs

-- The three maps of a join hold the same fields, with the same values.
pub record InStep (j : Joining) : Type 0 where
  pub same : (f : String) → lookup f j.wrote_value ≡ lookup f j.joined
  pub owned : (f : String) → lookup f j.wrote_by ≡ none → lookup f j.joined ≡ none
  pub free : (f : String) → lookup f j.joined ≡ none → lookup f j.wrote_by ≡ none

pub InStep-nothing_joined : InStep nothing_joined
unfolding lookup
InStep-nothing_joined = record { same = λ f. refl; owned = λ f h. refl; free = λ f h. refl }

module _ (step_id branch field : String) (value : Value) (j : Joining) (h : InStep j) where
  written-InStep : InStep (written step_id branch field value j)
  written-InStep = record {
    same = λ f. ground (
      arith,
      h.same f,
      lookup-insert field f value j.wrote_value,
      lookup-insert field f value j.joined,
    );
    owned = λ f. ground (
      arith,
      h.owned f,
      lookup-insert field f branch j.wrote_by,
      lookup-insert field f value j.joined,
    );
    free = λ f. ground (
      arith,
      h.free f,
      lookup-insert field f branch j.wrote_by,
      lookup-insert field f value j.joined,
    );
  }

  write_field-fits :
      fits (lookup field j.joined) value ≡ true
      → write_field step_id branch field value j ≡ ok (written step_id branch field value j)
  unfolding write_field
  write_field-fits ok_value = ground (arith, h.same field, h.owned field, h.free field)

  write_field_differs :
      fits (lookup field j.joined) value ≡ false
      → (owner : String) × (u : Value) × (write_field step_id branch field value j
          ≡ err (conflicting_branch_writes step_id field owner u branch value))
  unfolding write_field
  write_field_differs differs = elim (Option-cases (lookup field j.wrote_by)) [
    | inl e ↦ ground (arith, h.owned field e)
    | inr (owner, e) ↦
        (owner, or_null (lookup field j.wrote_value), ground (arith, h.same field, h.free field))
  ]

  -- after the write, the rest of the values must agree with the one that was written
  written-AgreeFrom :
      (rest : Context) (f : String)
      → fits (lookup field j.joined) value ≡ true
      → AgreeFrom (lookup f (written step_id branch field value j).joined) (values_of f rest)
        ↔ AgreeFrom (lookup f j.joined) (values_of f ((field, value) ∷ rest))
  written-AgreeFrom rest f ok_value = elim (Bool-cases (field == f)) [
    | inl e ↦
        rw (lookup-insert, e)
          (
            (λ a. (
              subst (λ x. fits (lookup x j.joined) value ≡ true) ((eq_iff field f).0 e) ok_value,
              a,
            )),
            (λ a. a.1),
          )
    | inr e ↦ rw (lookup-insert, e) ((λ a. a), (λ a. a))
  ]

  written-last_from :
      (rest : Context) (f : String)
      → last_from (lookup f (written step_id branch field value j).joined) (values_of f rest)
        ≡ last_from (lookup f j.joined) (values_of f ((field, value) ∷ rest))
  written-last_from rest f = elim (Bool-cases (field == f)) [
    | inl e ↦ rw (lookup-insert, e)
    | inr e ↦ rw (lookup-insert, e)
  ]

  written-differs :
      (rest : Context)
      → fits (lookup field j.joined) value ≡ false
      → ¬ AgreeFrom (lookup field j.joined) (values_of field ((field, value) ∷ rest))
  written-differs rest differs = rw (eq_refl field) (λ a. cc (a.0, differs))

-- A join that has gone well: every field agrees and holds the last value written to it.
pub record Joined (before : Context) (fields : String → List Value) (after : Joining) : Type 0 where
  pub in_step : InStep after
  pub agree : (f : String) → AgreeFrom (lookup f before) (fields f)
  pub last : (f : String) → lookup f after.joined ≡ last_from (lookup f before) (fields f)

-- A join that was refused, and the field that is the reason.
pub record Refused (step_id : String) (before : Context) (fields : String → List Value)
    (r : Outcome Joining) : Type 0 where
  pub field : String
  pub first_branch : String
  pub first_value : Value
  pub second_branch : String
  pub second_value : Value
  pub is_conflict :
      r
      ≡ err (
          conflicting_branch_writes step_id field first_branch first_value second_branch
            second_value)
  pub disagree : ¬ AgreeFrom (lookup field before) (fields field)

abbrev pub Settled : String → Context → (String → List Value) → Outcome Joining → Type 0
Settled step_id before fields r =
    ((after : Joining) × (r ≡ ok after) × Joined before fields after)
    ⊎ Refused step_id before fields r

abbrev pub entries_values : Context → String → List Value
entries_values fields f = values_of f fields

module _ (step_id branch : String) where
  join_fields-cons :
      (field : String) (value : Value) (rest : Context) (j : Joining)
      → InStep j
      → fits (lookup field j.joined) value ≡ true
      → (r : Outcome Joining)
      → Settled step_id (written step_id branch field value j).joined (entries_values rest) r
      → Settled step_id j.joined (entries_values ((field, value) ∷ rest)) r
  join_fields-cons field value rest j h fit r (inl (after, e, joined)) = inl (
    after,
    e,
    record {
      in_step = joined.in_step;
      agree = λ f. (written-AgreeFrom step_id branch field value j h rest f fit).0 (joined.agree f);
      last = λ f. joined.last f ∙ written-last_from step_id branch field value j h rest f;
    },
  )
  join_fields-cons field value rest j h fit r (inr refused) = inr (record {
    field = refused.field;
    first_branch = refused.first_branch;
    first_value = refused.first_value;
    second_branch = refused.second_branch;
    second_value = refused.second_value;
    is_conflict = refused.is_conflict;
    disagree = λ a.
        refused.disagree
          ((written-AgreeFrom step_id branch field value j h rest refused.field fit).1 a);
  })

  pub join_fields-Settled :
      (fields : Context) (j : Joining)
      → InStep j
      → Settled step_id j.joined (entries_values fields) (join_fields step_id branch fields j)
  unfolding join_fields
  join_fields-Settled [] j h =
      inl (j, refl, record { in_step = h; agree = λ f. tt; last = λ f. refl })
  join_fields-Settled ((field, value) ∷ rest) j h =
      elim (Bool-cases (fits (lookup field j.joined) value)) [
        | inl fit ↦ rw (write_field-fits step_id branch field value j h fit) (
            join_fields-cons field value rest j h fit _ (
              join_fields-Settled rest (written step_id branch field value j)
                (written-InStep step_id branch field value j h)))
        | inr differs ↦
            let (owner, u, e) = write_field_differs step_id branch field value j h differs in
            rw e (
              inr (record {
                field = field;
                first_branch = owner;
                first_value = u;
                second_branch = branch;
                second_value = value;
                is_conflict = refl;
                disagree = written-differs step_id branch field value j h rest differs;
              }))
      ]
