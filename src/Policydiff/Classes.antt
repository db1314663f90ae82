-- ===== src/Policydiff/Classes.antt =====
-- What stands in the two lists of a report.
use cee.Prelude.{ℕ, ◌+◌, ◌≡◌, false, List, [], ◌∷◌, ◌⊎◌, length}
use cee.Value.{Value}
use cee.Execution.Types.{Engine}
use cee.Replay.Compare.{Difference}
use cee.Policydiff.{Change, Report, is_bookkeeping, flipped}

-- A difference in a field that is not bookkeeping.
abbrev pub Decides : List Difference → Type 0
Decides [] = ⊥
Decides (d ∷ diffs) = (is_bookkeeping d.field ≡ false) ⊎ Decides diffs

abbrev pub AllChanges : (Change → Type 0) → List Change → Type 0
AllChanges P [] = Unit
AllChanges P (c ∷ cs) = P c × AllChanges P cs

-- the class of a change is the class of its differences
abbrev pub IsOutcome : Change → Type 0
IsOutcome c = Decides c.differences

abbrev pub IsExplanation : Change → Type 0
IsExplanation c = ¬ Decides c.differences × ¬ (c.differences ≡ [])

abbrev pub Classified : Report → Type 0
Classified r = AllChanges IsOutcome r.outcomes × AllChanges IsExplanation r.explanations

abbrev pub changes : Report → ℕ
changes r = flipped r + length r.explanations
