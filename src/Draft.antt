-- ===== src/Draft.antt =====
-- draft/draft.go: a language model is asked for a manifest until it gives one that has no error. The call
-- of the model is the parameter `chat`, over the world `W`; `none` in the place of a manifest is nil. The
-- text of the first prompt is the parameter `system`, and `std` the library once nil is replaced.
pub mod Accepted
use cee.Prelude.{
  ℕ, zero, suc, ◌+◌, String, Bool, true, false, Option, none, some, List, [], ◌∷◌, ◌++◌, ◌⊎◌, inl,
  inr, ◌||◌, ◌&&◌, if◌then◌else◌, concat, decimal, all_chars, eqb, leb,
}
use cee.Value.{Value, ℤ, pos, negsuc}
use cee.Execution.Errors.{Err, plain, wrap}
use cee.Execution.Texts.{error_text}
use cee.Execution.Exec.{Exec, ok, pure, attempt, ◌>>=◌}
use cee.Manifest.Specs.{File}
use cee.Manifest.Validate.{Issue, is_ok}
use cee.Manifest.ValidateFile.{validate}
use cee.Manifest.Report.{report_text}
use cee.Manifest.Load.{load}
use cee.Registry.{Domain}
use cee.Stdlib.Actions.{Library}

abbrev pub default_max_attempts : ℕ
default_max_attempts = 3

pub record Attempt : Type 0 where
  pub manifest : Option String
  pub report : List Issue
  pub failure : Option Err

pub record Result : Type 0 where
  pub manifest : Option String
  pub attempts : List Attempt

abbrev pub attempts_of : ℤ → ℕ
attempts_of (pos n) = if eqb n 0 then default_max_attempts else n
attempts_of (negsuc n) = default_max_attempts

-- unicode.IsSpace
abbrev pub is_space : ℕ → Bool
is_space r =
    (leb 9 r && leb r 13)
    || (eqb r 32
        || (eqb r 133
            || (eqb r 160
                || (eqb r 5760
                    || ((leb 8192 r && leb r 8202)
                        || (eqb r 8232
                            || (eqb r 8233 || (eqb r 8239 || (eqb r 8287 || eqb r 12288)))))))))

abbrev pub retry_prompt : String → String → String
retry_prompt description problems = concat (
    "Your previous manifest was rejected. Fix exactly these problems and return the "
    ∷ "corrected manifest as raw JSON:\n\n" ∷ problems ∷ "\n\nThe original request was:\n"
    ∷ description ∷ [])

abbrev pub add_attempt : Attempt → Result → Result
add_attempt a result = record result { attempts = result.attempts ++ a ∷ [] }

-- the manifest is loaded if the domain has no actions of its own
abbrev pub load_failure : {W : Type 0} → List String → Domain W ⊎ Err → Option Err
load_failure [] (inr failure) = some failure
load_failure [] (inl domain) = none
load_failure (hook ∷ hooks) _ = none

module _ {W S : Type 0} (chat : String → String → Exec S String) (unmarshal : String → File ⊎ Err)
    (show : Value → String) (std : Library W) (hook_names : List String) (system : String) where
  abbrev pub attempt_text : Attempt → Option Err → String
  attempt_text a none = report_text a.report
  attempt_text a (some failure) = error_text show failure

  unfoldable pub last_issues : List Attempt → String
  last_issues [] = "(none recorded)"
  last_issues (a ∷ []) = attempt_text a a.failure
  last_issues (a ∷ b ∷ attempts) = last_issues (b ∷ attempts)

  abbrev pub checked_attempt : String → Option Err → Attempt
  checked_attempt candidate failure = record {
    manifest = some candidate;
    report = validate show std unmarshal candidate;
    failure = failure;
  }

  -- a candidate without an error is the answer unless it does not load
  abbrev pub accept :
      String
      → Result
      → String
      → (String → Result → Exec S (Result × Option Err))
      → Option Err
      → Exec S (Result × Option Err)
  accept description result candidate again none = pure (
    record (add_attempt (checked_attempt candidate none) result) { manifest = some candidate },
    none,
  )
  accept description result candidate again (some failure) =
      again (retry_prompt description (error_text show failure))
        (add_attempt (checked_attempt candidate (some failure)) result)

  -- what follows the reply of the model
  abbrev pub judge :
      String
      → ℕ
      → Result
      → (String → Result → Exec S (Result × Option Err))
      → String ⊎ Err
      → Exec S (Result × Option Err)
  judge description i result again (inr failure) = pure (
    add_attempt (record { manifest = none; report = []; failure = some failure }) result,
    some (wrap (concat ("draft: attempt " ∷ decimal (i + 1) ∷ ": " ∷ [])) failure),
  )
  judge description i result again (inl candidate) =
      if is_ok (validate show std unmarshal candidate)
      then accept description result candidate again
          (load_failure hook_names (load [] std unmarshal candidate))
      else again (retry_prompt description (report_text (validate show std unmarshal candidate)))
          (add_attempt (checked_attempt candidate none) result)

  -- the loop, with the number of attempts that are left
  unfoldable pub ask : String → ℕ → (left i : ℕ) → String → Result → Exec S (Result × Option Err)
  unfolding last_issues ◌>>=◌
  ask description attempts zero i user result = pure (
    result,
    some (
        plain (
          concat (
            "draft: no valid manifest after "
            ∷ decimal attempts
            ∷ " attempts; last issues:\n"
            ∷ last_issues result.attempts
            ∷ []))),
  )
  ask description attempts (suc left) i user result =
      attempt (chat system user)
      >>= judge description i result (ask description attempts left (i + 1))

  abbrev pub no_result : Result
  no_result = record { manifest = none; attempts = [] }

  -- `Draft`
  unfoldable pub draft : ℤ → String → Exec S (Result × Option Err)
  unfolding ask
  draft max_attempts description =
      if all_chars is_space description
      then pure (no_result, some (plain "draft: a description is required"))
      else ask description (attempts_of max_attempts) (attempts_of max_attempts) 0 description
          no_result
