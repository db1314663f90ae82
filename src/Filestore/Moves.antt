-- ===== src/Filestore/Moves.antt =====
-- The paths of pointers, of temporary files and of claims are different ones.
use Prim.Native.String.{◌++◌ as ◌<>◌}
use cee.Prelude.{
  ℕ, String, ◌≡◌, ◌≢◌, refl, ap, sym, subst, ◌∙◌, true, false, Option, none, has_char, all_chars,
  all_chars-has_char, arith, concat,
}
use cee.Filestore.Files.{Disk, IsFileName, IsLawful}
use cee.Filestore.Names.{has_char-append}
use cee.Filestore.{check_pointer, is_pointer_char, claim_path}

abbrev pub IsPointer : String → Type 0
IsPointer pointer = check_pointer pointer ≡ none

IsPointer-chars : (pointer : String) → IsPointer pointer → all_chars is_pointer_char pointer ≡ true
unfolding check_pointer
IsPointer-chars pointer h = ground (arith, h)

IsPointer-nonempty : (pointer : String) → IsPointer pointer → pointer ≢ ""
unfolding check_pointer
IsPointer-nonempty pointer h e =
    let at_empty : check_pointer "" ≡ none = subst IsPointer e h in absurd (cc at_empty)

pub no_dot : (pointer : String) → IsPointer pointer → has_char 46 pointer ≡ false
no_dot pointer h = all_chars-has_char is_pointer_char 46 pointer refl (IsPointer-chars pointer h)

-- texts that differ in whether they have a character differ
apart : (c : ℕ) (s t : String) → has_char c s ≡ true → has_char c t ≡ false → s ≢ t
apart c s t h k e = absurd (cc (h, k, ap (has_char c) e))

pub IsPointer-IsFileName : (pointer : String) → IsPointer pointer → IsFileName pointer
unfolding has_char
IsPointer-IsFileName pointer h = (
  all_chars-has_char is_pointer_char 47 pointer refl (IsPointer-chars pointer h),
  IsPointer-nonempty pointer h,
  (λ e. apart 46 "." pointer refl (no_dot pointer h) (sym e)),
  (λ e. apart 46 ".." pointer refl (no_dot pointer h) (sym e)),
)

-- a name with another character than the dot is a name of a file if it has no separator
named :
    (c : ℕ) (name : String)
    → has_char c name ≡ true
    → has_char 47 name ≡ false
    → has_char c ".." ≡ false
    → has_char c "." ≡ false
    → IsFileName name
unfolding has_char
named c name h plain two one = (
  plain,
  (λ e. apart c name "" h refl e),
  (λ e. apart c name "." h one e),
  (λ e. apart c name ".." h two e),
)

module _ {D : Type 0} (disk : Disk D) (file : D → String → Option String) (dir : String)
    (lawful : IsLawful disk file dir) where
  pub temp_other :
      (pointer x : String)
      → IsPointer pointer
      → has_char 47 x ≡ false
      → disk.join dir pointer ≢ disk.join dir (".tmp-" <> x)
  unfolding has_char
  temp_other pointer x h plain e =
      apart 46 (".tmp-" <> x) pointer (has_char-append 46 ".tmp-" x) (no_dot pointer h) (
        sym (
          lawful.join_injective pointer (".tmp-" <> x) (IsPointer-IsFileName pointer h)
            (named 116 (".tmp-" <> x) (has_char-append 116 ".tmp-" x)
              (has_char-append 47 ".tmp-" x ∙ plain) refl refl)
            e))

  -- the part of the name of a claim that follows the pointer
  abbrev pub claim_tail : String → String
  claim_tail x = "." <> (x <> ".claimed")

  pub claim_path-tail :
      (pointer suffix : String)
      → claim_path disk dir pointer suffix ≡ disk.join dir pointer <> claim_tail suffix
  unfolding concat
  claim_path-tail pointer suffix = refl

  claim_tail-plain : (x : String) → has_char 47 x ≡ false → has_char 47 (claim_tail x) ≡ false
  unfolding has_char
  claim_tail-plain x plain =
      has_char-append 47 "." (x <> ".claimed") ∙ has_char-append 47 x ".claimed" ∙ rw (plain) refl

  claim_tail-has :
      (c : ℕ) (x : String) → has_char c ".claimed" ≡ true → has_char c (claim_tail x) ≡ true
  unfolding has_char
  claim_tail-has c x h =
      ground (arith, h, has_char-append c "." (x <> ".claimed"), has_char-append c x ".claimed")

  claim_name-has :
      (c : ℕ) (claimed x : String)
      → has_char c ".claimed" ≡ true
      → has_char c (claimed <> claim_tail x) ≡ true
  unfolding has_char
  claim_name-has c claimed x there =
      ground (arith, has_char-append c claimed (claim_tail x), claim_tail-has c x there)

  -- the name of a claim is a name of a file
  pub claim_name-IsFileName :
      (claimed x : String)
      → IsPointer claimed
      → has_char 47 x ≡ false
      → IsFileName (claimed <> claim_tail x)
  unfolding has_char
  claim_name-IsFileName claimed x p plain =
      let slash : has_char 47 (claimed <> claim_tail x) ≡ false =
        has_char-append 47 claimed (claim_tail x)
        ∙ rw ((IsPointer-IsFileName claimed p).0) (claim_tail-plain x plain) in
      named 99 (claimed <> claim_tail x) (claim_name-has 99 claimed x refl) slash refl refl

  pub claim_path-join :
      (claimed x : String)
      → IsPointer claimed
      → has_char 47 x ≡ false
      → disk.join dir claimed <> claim_tail x ≡ disk.join dir (claimed <> claim_tail x)
  claim_path-join claimed x p plain =
      lawful.join_append claimed (claim_tail x) (IsPointer-IsFileName claimed p)
        (claim_tail-plain x plain)

  pub claim_other :
      (pointer claimed x : String)
      → IsPointer pointer
      → IsPointer claimed
      → has_char 47 x ≡ false
      → disk.join dir pointer ≢ disk.join dir claimed <> claim_tail x
  unfolding has_char
  claim_other pointer claimed x h k plain e =
      let name = claimed <> claim_tail x in
      apart 46 name pointer (claim_name-has 46 claimed x refl) (no_dot pointer h) (
        sym (
          lawful.join_injective pointer name (IsPointer-IsFileName pointer h)
            (claim_name-IsFileName claimed x k plain) (e ∙ claim_path-join claimed x k plain)))
