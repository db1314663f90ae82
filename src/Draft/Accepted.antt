-- ===== src/Draft/Accepted.antt =====
-- The manifests that `Draft` of draft/draft.go answers with.
use cee.Prelude.{
  ℕ, zero, suc, ◌+◌, ◌≤◌, String, ◌≡◌, refl, true, Option, none, some, List, [], ◌∷◌, ◌⊎◌, inl, inr,
  arith, Bool-cases, length, length-append, subst, all_chars,
}
use cee.Value.{Value, ℤ}
use cee.Execution.Errors.{Err}
use cee.Execution.Exec.{Exec, ok, attempt}
use cee.Execution.Exec.Laws.{>>=-eq-ok, pure-eq-ok}
use cee.Manifest.Specs.{File}
use cee.Manifest.Validate.{is_ok}
use cee.Manifest.ValidateFile.{validate}
use cee.Manifest.Load.{load}
use cee.Registry.{Domain}
use cee.Stdlib.Actions.{Library}
use cee.Draft.{
  Attempt, Result, attempts_of, is_space, add_attempt, load_failure, checked_attempt, accept, judge,
  ask, draft,
}

module _ {W S : Type 0} (chat : String → String → Exec S String) (unmarshal : String → File ⊎ Err)
    (show : Value → String) (std : Library W) (hook_names : List String) (system : String) where
  abbrev pub Loads : String → List String → Type 0
  Loads candidate [] = (d : Domain W) × (load [] std unmarshal candidate ≡ inl d)
  Loads candidate (hook ∷ hooks) = Unit

  -- A manifest without an error, which loads if the domain has no actions of its own; or an error and no
  -- manifest. There are at most so many attempts.
  abbrev pub Answers : ℕ → Result → Option Err → Type 0
  Answers attempts result none =
      (length result.attempts ≤ attempts)
      × ((candidate : String) × (result.manifest ≡ some candidate)
          × (is_ok (validate show std unmarshal candidate) ≡ true)
          × Loads candidate hook_names)
  Answers attempts result (some failure) =
      (length result.attempts ≤ attempts) × (result.manifest ≡ none)

  abbrev AnswersPair : ℕ → Result × Option Err → Type 0
  AnswersPair attempts r = Answers attempts r.0 r.1

  load_failure-Loads :
      (candidate : String) (hooks : List String) (r : Domain W ⊎ Err)
      → load [] std unmarshal candidate ≡ r
      → load_failure hooks r ≡ none
      → Loads candidate hooks
  load_failure-Loads candidate [] (inl d) h e = (d, h)
  load_failure-Loads candidate [] (inr failure) h e = absurd (cc e)
  load_failure-Loads candidate (hook ∷ hooks) r h e = tt

  -- the rest of the loop, once an attempt is added
  abbrev Goes : ℕ → ℕ → (String → Result → Exec S (Result × Option Err)) → Type 0
  Goes attempts left again =
      (user : String) (result : Result) (s : S) (r : Result × Option Err)
      → result.manifest ≡ none
      → length result.attempts + left ≤ attempts
      → (again user result s).0 ≡ ok r
      → AnswersPair attempts r

  added :
      (attempts left : ℕ) (a : Attempt) (result : Result)
      → length result.attempts + suc left ≤ attempts
      → length (add_attempt a result).attempts + left ≤ attempts
  added attempts left a result h = omega (arith, h, length-append result.attempts (a ∷ []))

  accept_lem :
      (description candidate : String) (attempts left : ℕ) (result : Result)
      (again : String → Result → Exec S (Result × Option Err)) (failure : Option Err) (s : S)
      (r : Result × Option Err)
      → Goes attempts left again
      → result.manifest ≡ none
      → length result.attempts + suc left ≤ attempts
      → is_ok (validate show std unmarshal candidate) ≡ true
      → (failure ≡ none → Loads candidate hook_names)
      → (accept chat unmarshal show std hook_names system description result candidate again failure
          s).0
        ≡ ok r
      → AnswersPair attempts r
  accept_lem description candidate attempts left result again none s r goes clear few good loads e =
      let done = pure-eq-ok _ s e in
      let short =
        added attempts left
          (checked_attempt chat unmarshal show std hook_names system candidate none) result few in
      subst (AnswersPair attempts) done (omega (arith, short), (candidate, refl, good, loads refl))
  accept_lem description candidate attempts left result again (some f) s r goes clear few good loads
        e =
      goes _ _ s r clear
        (added attempts left
          (checked_attempt chat unmarshal show std hook_names system candidate (some f)) result few)
        e

  judge_lem :
      (description : String) (attempts left i : ℕ) (result : Result)
      (again : String → Result → Exec S (Result × Option Err)) (reply : String ⊎ Err) (s : S)
      (r : Result × Option Err)
      → Goes attempts left again
      → result.manifest ≡ none
      → length result.attempts + suc left ≤ attempts
      → (judge chat unmarshal show std hook_names system description i result again reply s).0
        ≡ ok r
      → AnswersPair attempts r
  judge_lem description attempts left i result again (inr failure) s r goes clear few e =
      let done = pure-eq-ok _ s e in
      let short =
        added attempts left (record { manifest = none; report = []; failure = some failure }) result
          few in
      subst (AnswersPair attempts) done (omega (arith, short), clear)
  judge_lem description attempts left i result again (inl candidate) s r goes clear few e =
      elim (Bool-cases (is_ok (validate show std unmarshal candidate))) [
        | inl good ↦
            accept_lem description candidate attempts left result again
              (load_failure hook_names (load [] std unmarshal candidate)) s r goes clear few good
              (load_failure-Loads candidate hook_names (load [] std unmarshal candidate) refl)
              (rw good at e)
        | inr bad ↦
            goes _ _ s r clear
              (added attempts left
                (checked_attempt chat unmarshal show std hook_names system candidate none) result
                few)
              (rw bad at e)
      ]

  ask_lem :
      (description : String) (attempts left i : ℕ)
      → Goes attempts left
          (ask chat unmarshal show std hook_names system description attempts left i)
  unfolding ask
  ask_lem description attempts zero i user result s r clear few e =
      subst (AnswersPair attempts) (pure-eq-ok _ s e) (omega (arith, few), clear)
  ask_lem description attempts (suc left) i user result s r clear few e =
      let again = ask chat unmarshal show std hook_names system description attempts left (i + 1) in
      let (reply, _, rest) = >>=-eq-ok (attempt (chat system user)) _ s e in
      judge_lem description attempts left i result again reply (attempt (chat system user) s).1 r
        (ask_lem description attempts left (i + 1)) clear few rest

  -- `Draft` answers with a manifest that has no error, and that loads if the domain has no actions of its
  -- own, or with an error and no manifest. It makes at most as many attempts as it is told to, three if
  -- it is told no positive number.
  pub draft-Answers :
      (max_attempts : ℤ) (description : String) (s : S) (result : Result) (failure : Option Err)
      → (draft chat unmarshal show std hook_names system max_attempts description s).0
        ≡ ok (result, failure)
      → Answers (attempts_of max_attempts) result failure
  unfolding draft
  draft-Answers max_attempts description s result failure e =
      elim (Bool-cases (all_chars is_space description)) [
        | inl blank ↦
            subst (AnswersPair (attempts_of max_attempts)) (pure-eq-ok _ s (rw blank at e))
              (omega arith, refl)
        | inr said ↦
            ask_lem description (attempts_of max_attempts) (attempts_of max_attempts) 0 description
              no_answer s (result, failure) refl (omega arith) (rw said at e)
      ]
    where
      no_answer : Result
      no_answer = record { manifest = none; attempts = [] }
