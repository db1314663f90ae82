-- ===== src/Tests/Disks/Lawful.antt =====
-- What is relied on of the calls of a disk holds of the directory in memory.
use Prim.Native.String.{◌++◌ as ◌<>◌}
use Prim.Native.String.{[] as empty, ◌∷◌ as ◌then_char◌, count}
use text.Mathlib.TextLemmas.{
  length-append, nil-append, cons-append, append_assoc, append_cancel_left,
}
use cee.Prelude.{
  ◌⊎◌, arith, concat, String, ◌≡◌, ◌≢◌, refl, ap, sym, ◌∙◌, Bool, true, false, Option, none, some,
  List, [], ◌∷◌, inl, inr, ◌==◌, eq_iff, if◌then◌else◌, Bool-cases, has_char, all_chars, eq_refl,
}
use cee.Maps.{lookup, insert, remove, lookup-insert, lookup-remove}
use cee.Execution.Errors.{Err}
use cee.Execution.Exec.{Outcome, ok, err, attempt}
use cee.Filestore.Files.{IsLawful, is_hex, ChangesOnly, AllPaths}
use cee.Filestore.Healthy.{IsHealthy}
use cee.Filestore.Holds.{inl-injective}
use cee.Filestore.Commits.{H}
use cee.Tests.Disks.{
  Folder, content, not_there, moved, read, waiting, claims_pattern, after_slash, folder,
}

ok-injective : {A : Type 0} {a b : A} → ◌≡◌ {A = Outcome A} (ok a) (ok b) → a ≡ b
ok-injective h = cc

pub apart : (k q : String) → q ≢ k → (k == q) ≡ false
apart k q other = elim (Bool-cases (k == q)) [
  | inl b ↦ absurd (other (sym ((eq_iff k q).0 b)))
  | inr b ↦ b
]

inserted : (k q text : String) (d : Folder) → q ≢ k → lookup q (insert k text d) ≡ lookup q d
inserted k q text d other =
    lookup-insert k q text d
    ∙ ap (λ (b : Bool). if b then some text else lookup q d) (apart k q other)

put : (k text : String) (d : Folder) → lookup k (insert k text d) ≡ some text
put k text d = lookup-insert k k text d ∙ rw (eq_refl k) refl

removed : (k q : String) (d : Folder) → q ≢ k → lookup q (remove k d) ≡ lookup q d
removed k q d other =
    lookup-remove k q d ∙ ap (λ (b : Bool). if b then none else lookup q d) (apart k q other)

gone : (k : String) (d : Folder) → lookup k (remove k d) ≡ none
gone k d = lookup-remove k k d ∙ rw (eq_refl k) refl

read_keeps_lem :
    (o : Option String) (d : Folder) (p : String) → content (read o d).1 p ≡ content d p
read_keeps_lem none d p = refl
read_keeps_lem (some t) d p = refl

read_lem : (o : Option String) (d : Folder) (text : String) → (read o d).0 ≡ ok text → o ≡ some text
read_lem none d text e = absurd (cc e)
read_lem (some t) d text e = ap some (ok-injective e)

moved_err :
    (o : Option String) (from to : String) (d : Folder) (e : Err) (path : String)
    → (moved o from to d).0 ≡ err e
    → content (moved o from to d).1 path ≡ content d path
moved_err none from to d e path h = refl
moved_err (some t) from to d e path h = absurd (cc h)

moved_ok :
    (o : Option String) (from to : String) (d : Folder)
    → content d from ≡ o
    → (moved o from to d).0 ≡ ok tt
    → from ≢ to
    → (text : String) × (content d from ≡ some text)
      × (content (moved o from to d).1 to ≡ some text)
      × (content (moved o from to d).1 from ≡ none)
      × ((path : String)
          → path ≢ from
          → path ≢ to
          → content (moved o from to d).1 path ≡ content d path)
moved_ok none from to d h e other = absurd (cc e)
moved_ok (some text) from to d h e other = (
  text,
  h,
  put to text (remove from d),
  inserted to from text (remove from d) other ∙ gone from d,
  λ path p q. inserted to path text (remove from d) q ∙ removed from path d p,
)

temp_lem :
    (d : Folder) (temp : String)
    → (folder.create_temp "runs" ".tmp-*" d).0 ≡ ok temp
    → (x : String) × (has_char 47 x ≡ false)
      × (temp ≡ folder.join "runs" (".tmp-" <> x))
      × ChangesOnly folder content temp d (folder.create_temp "runs" ".tmp-*" d).1
unfolding has_char
temp_lem d temp e =
    let same : "runs" <> ("/" <> ".tmp-1") ≡ temp = ok-injective e in
    ("1", refl, sym same, λ q other. inserted _ q "" d (λ c. other (c ∙ same)))

hex_lem : (suffix : String) → "0af3" ≡ suffix → all_chars is_hex suffix ≡ true
unfolding all_chars
hex_lem suffix e = ap (all_chars is_hex) (sym e)

-- the pattern of the claims of one pointer is not that of all claims
pattern_apart :
    (pointer : String)
    → (concat (("runs" <> ("/" <> pointer)) ∷ ".*" ∷ ".claimed" ∷ []) == claims_pattern) ≡ false
unfolding concat
pattern_apart pointer =
    elim (Bool-cases
      (concat (("runs" <> ("/" <> pointer)) ∷ ".*" ∷ ".claimed" ∷ []) == claims_pattern)) [
        | inr b ↦ b
        | inl b ↦
            let same : ("runs" <> ("/" <> pointer)) <> ".*.claimed" ≡ claims_pattern =
              (eq_iff _ _).0 b in
            let whole = length-append ("runs" <> ("/" <> pointer)) ".*.claimed" in
            let middle = length-append "runs" ("/" <> pointer) in
            let part = length-append "/" pointer in
            let counted : count (("runs" <> ("/" <> pointer)) <> ".*.claimed") ≡ 14 =
              ap count same in
            absurd (omega arith)
      ]

after_slash-append :
    (s t : String)
    → after_slash (s <> t) ≡ (if has_char 47 s then after_slash s <> t else after_slash t)
unfolding after_slash has_char
after_slash-append empty t = rw (nil-append t) refl
after_slash-append (c then_char s) t =
    rw (cons-append c s t) (ground (arith, after_slash-append s t))

pub after_slash-join : (name : String) → after_slash ("runs" <> ("/" <> name)) ≡ name
unfolding after_slash has_char
after_slash-join name =
    ap after_slash (sym (append_assoc "runs" "/" name))
    ∙ after_slash-append "runs/" name
    ∙ nil-append name

glob_lem :
    (P : String → Type 0) (paths : List String) → ◌≡◌ {A = List String} [] paths → AllPaths P paths
glob_lem P [] e = tt
glob_lem P (path ∷ paths) e = absurd (cc e)

pub folder-IsLawful : IsLawful folder content "runs"
folder-IsLawful = record {
  sync_keeps = λ path d p. refl;
  close_keeps = λ path d p. refl;
  chmod_keeps = λ path mode d p. refl;
  read_keeps = λ path d p. read_keeps_lem (content d path) d p;
  random_keeps = λ d p. refl;
  glob_keeps = λ pattern d p. refl;
  random_hex_ok = λ d suffix e. hex_lem suffix (ok-injective e);
  create_temp_ok = temp_lem;
  create_temp_err = λ d e h. absurd (cc h);
  write_ok = λ path text d e. put path text d;
  write_changes = λ path text d q other. inserted path q text d other;
  remove_changes = λ path d q other. removed path q d other;
  rename_ok = λ from to d e other. moved_ok (content d from) from to d refl e other;
  rename_err = λ from to d e h path. moved_err (content d from) from to d e path h;
  rename_missing = λ from to d h. (not_there, ap (λ o. (moved o from to d).0) h, refl);
  read_ok = λ path d text e. read_lem (content d path) d text e;
  glob_ok = λ pointer d paths p e. glob_lem _ paths (
      ap (λ (b : Bool). if b then "runs/a1.0af3.claimed" ∷ [] else []) (sym (pattern_apart pointer))
      ∙ ok-injective e);
  join_injective = λ a b p q e. append_cancel_left "/" a b (append_cancel_left "runs" _ _ e);
  join_append =
      λ a b p q. append_assoc "runs" ("/" <> a) b ∙ ap (λ t. "runs" <> t) (append_assoc "/" a b);
  marshal_ok = λ state text e. (waiting text, refl, sym (inl-injective e));
}

pub folder-IsHealthy : IsHealthy folder content "runs"
unfolding attempt
folder-IsHealthy = record {
  create_temp_works = λ d. ("runs" <> ("/" <> ".tmp-1"), refl);
  write_works = λ path text d. refl;
  sync_works = λ path d. refl;
  close_works = λ path d. refl;
  chmod_works = λ path d. refl;
  rename_works = λ from to text d h. ap (λ o. (moved o from to d).0) h;
  read_works = λ path text d h. ap (λ o. (read o d).0) h;
  random_works = λ d. ("0af3", refl);
  remove_ends = λ path d. (inl tt, refl);
}

pub empty-Holds : H folder content "runs" folder-IsLawful [] []
unfolding lookup
empty-Holds pointer p = tt

pub read_ends_lem :
    (o : Option String) (d : Folder)
    → (r : String ⊎ Err) × (d' : Folder) × (attempt (read o) d ≡ (ok r, d'))
unfolding attempt
read_ends_lem none d = (inr not_there, d, refl)
read_ends_lem (some text) d = (inl text, d, refl)
