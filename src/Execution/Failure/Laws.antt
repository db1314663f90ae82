-- ===== src/Execution/Failure/Laws.antt =====
-- `merge`, `tail` and `onFailure`.
use cee.Prelude.{String, ◌≡◌, refl, Option, none, some, ◌∙◌}
use mathlib.Core.Path.{◌≡◌}
use cee.Maps.{lookup, or_else, lookup-insert_all, insert_all, IsMap, insert_all-IsMap}
use cee.Value.{Context, Value}
use cee.Execution.Failure.{[], merge}

or_else-none : (o : Option Value) → or_else o none ≡ o
or_else-none none = refl
or_else-none (some v) = refl

-- The overlay's value of a field, or else that of the base.
pub lookup-merge :
    (k : String) (base overlay : Context)
    → lookup k (merge base overlay) ≡ or_else (lookup k overlay) (lookup k base)
unfolding merge lookup
lookup-merge k base overlay =
    lookup-insert_all k (insert_all [] base) overlay
    ∙ rw (lookup-insert_all k [] base, or_else-none (lookup k base))

pub merge-IsMap : (base overlay : Context) → IsMap (merge base overlay)
unfolding merge
merge-IsMap base overlay = insert_all-IsMap _ overlay (insert_all-IsMap [] base tt)
