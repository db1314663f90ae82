-- ===== src/Filestore/Listed.antt =====
-- `Orphaned` of filestore/filestore.go lists the claims that are old enough, by their pointers.
use Prim.Native.String.{◌++◌ as ◌<>◌}
use mathlib.Core.List.{map-append}
use text.Mathlib.TextLemmas.{append_assoc}
use cee.Prelude.{
  concat, ◌-◌, ◌++◌, ℕ, String, ◌≡◌, refl, ap, sym, ◌∙◌, false, Option, List, [], ◌∷◌, ◌⊎◌, inl,
  inr, map, has_char, if◌then◌else◌, ltb, Bool-cases,
}
use cee.Execution.Errors.{Err}
use cee.Execution.Exec.{ok, attempt, pure, ◌>>=◌}
use cee.Execution.Exec.Laws.{bind_ok, attempt_ok}
use cee.Filestore.Files.{Disk, IsLawful, IsFileName}
use cee.Filestore.Names.{pointer_from_claim, pointer_from_claim-append, claim_ext}
use cee.Filestore.Moves.{IsPointer, claim_path-tail, claim_path-join, claim_name-IsFileName}
use cee.Filestore.Works.{Works-wrapped, Works-bind, Works}
use cee.Filestore.{orphaned, orphans_among, Orphan, claim_path, orphan_of, old_orphan}

-- a claim, by the pointer and the suffix that it was made from
abbrev pub Claim : Type 0
Claim = String × String

module _ {D : Type 0} (disk : Disk D) (dir : String) (times : String → ℕ) where
  abbrev pub path_of : Claim → String
  path_of c = claim_path disk dir c.0 c.1

  -- The claims that were made no later than the cutoff: the pointer and the time of each.
  abbrev pub old_claims : ℕ → List Claim → List (String × ℕ)
  old_claims cutoff [] = []
  old_claims cutoff (c ∷ claims) =
      let rest = old_claims cutoff claims in
      if ltb cutoff (times (path_of c)) then rest else (c.0, times (path_of c)) ∷ rest

  abbrev pub told : Orphan → String × ℕ
  told o = (o.pointer, o.claimed_at)

  -- The claims were made by the store.
  abbrev pub AllMade : List Claim → Type 0
  AllMade [] = Unit
  AllMade (c ∷ claims) =
      (IsPointer c.0 × (has_char 46 c.1 ≡ false) × (has_char 47 c.1 ≡ false)) × AllMade claims

  -- Names are read back from paths, the time of every claim is known, and a read does not panic.
  pub record IsDated : Type 0 where
    pub base_join : (name : String) → IsFileName name → disk.base (disk.join dir name) ≡ name
    pub mod_time_works :
        (path : String) (d : D) → (d' : D) × (disk.mod_time path d ≡ (ok (times path), d'))
    pub read_ends :
        (path : String) (d : D)
        → (r : String ⊎ Err) × (d' : D) × (attempt (disk.read_file path) d ≡ (ok r, d'))

module _ {D : Type 0} (disk : Disk D) (file : D → String → Option String) (dir : String)
    (lawful : IsLawful disk file dir) (times : String → ℕ) (dated : IsDated disk dir times) where
  pointer_of_claim :
      (pointer suffix : String)
      → IsPointer pointer
      → has_char 46 suffix ≡ false
      → has_char 47 suffix ≡ false
      → pointer_from_claim (disk.base (claim_path disk dir pointer suffix)) ≡ pointer
  pointer_of_claim pointer suffix p dotless plain =
      let name = pointer <> ("." <> (suffix <> ".claimed")) in
      let regrouped : name ≡ (pointer <> ("." <> suffix)) <> claim_ext =
        ap (λ t. pointer <> t) (sym (append_assoc "." suffix claim_ext))
        ∙ sym (append_assoc pointer ("." <> suffix) claim_ext) in
      ap (λ path. pointer_from_claim (disk.base path))
        (claim_path-tail disk file dir lawful pointer suffix
          ∙ claim_path-join disk file dir lawful pointer suffix p plain)
      ∙ ap pointer_from_claim
          (dated.base_join name (claim_name-IsFileName disk file dir lawful pointer suffix p plain))
      ∙ ap pointer_from_claim regrouped
      ∙ pointer_from_claim-append pointer suffix dotless

  abbrev Told : List (String × ℕ) → List Orphan → D → Type 0
  Told expected orphans d = map (told disk dir times) orphans ≡ expected

  abbrev old : ℕ → List Claim → List (String × ℕ)
  old = old_claims disk dir times

  looked_at :
      (cutoff : ℕ) (c : Claim) (d : D)
      → AllMade disk dir times (c ∷ [])
      → Works
          (Told (old cutoff (c ∷ [])))
          (attempt (disk.mod_time (path_of disk dir times c))
            >>= old_orphan disk dir cutoff (path_of disk dir times c))
          d
  unfolding pure
  looked_at cutoff c d ((p, dotless, plain), u) =
      let path = path_of disk dir times c in
      let (d1, works) = dated.mod_time_works path d in
      let (r, d2, ends) = dated.read_ends path d1 in
      let dates =
        bind_ok (attempt (disk.mod_time path)) (old_orphan disk dir cutoff path) d d1
          (attempt_ok (disk.mod_time path) d d1 works) in
      elim (Bool-cases (ltb cutoff (times path))) [
        | inl b ↦ ([], d1, dates ∙ rw (b) refl, rw (b) refl)
        | inr b ↦ (
          orphan_of disk dir path (times path) r,
          d2,
          dates ∙ rw (b) (bind_ok (attempt (disk.read_file path)) _ d1 d2 ends),
          rw (b) (ap (λ q. (q, times path) ∷ []) (pointer_of_claim c.0 c.1 p dotless plain)),
        )
      ]

  old_claims-cons :
      (cutoff : ℕ) (c : Claim) (claims : List Claim)
      → old cutoff (c ∷ []) ++ old cutoff claims ≡ old cutoff (c ∷ claims)
  old_claims-cons cutoff c claims =
      elim (Bool-cases (ltb cutoff (times (path_of disk dir times c)))) [
        | inl b ↦ rw (b) refl
        | inr b ↦ rw (b) refl
      ]

  orphans_among-Told :
      (cutoff : ℕ) (claims : List Claim) (d : D)
      → AllMade disk dir times claims
      → Works
          (Told (old cutoff claims))
          (orphans_among disk dir cutoff (map (path_of disk dir times) claims))
          d
  unfolding orphans_among pure
  orphans_among-Told cutoff [] d made = ([], d, refl, refl)
  orphans_among-Told cutoff (c ∷ claims) d (first, made) =
      let T = Told (old cutoff (c ∷ claims)) in
      Works-bind (Told (old cutoff (c ∷ []))) T _ _ d (looked_at cutoff c d (first, tt))
        λ found d1 e.
          Works-bind (Told (old cutoff claims)) T _ _ d1 (orphans_among-Told cutoff claims d1 made)
            λ rest d2 e'. (
              found ++ rest,
              d2,
              refl,
              map-append (told disk dir times) found rest
                  ∙ ap (λ x. x ++ map (told disk dir times) rest) e
                  ∙ ap (λ y. old cutoff (c ∷ []) ++ y) e'
                  ∙ old_claims-cons cutoff c claims,
            )

  -- Where the claims of the directory were made by the store and the time of each is known, `Orphaned`
  -- returns, and lists exactly the claims that are at least as old as asked, each under the pointer that
  -- it was made from and with its time.
  pub orphaned_lem :
      (min_age now : ℕ) (claims : List Claim) (d d₁ d₂ : D)
      → AllMade disk dir times claims
      → disk.glob (disk.join dir (concat ("*" ∷ claim_ext ∷ []))) d
        ≡ (ok (map (path_of disk dir times) claims), d₁)
      → disk.now d₁ ≡ (ok now, d₂)
      → Works
          (λ orphans d'.
            map (told disk dir times) orphans ≡ old_claims disk dir times (now - min_age) claims)
          (orphaned disk dir min_age)
          d
  unfolding orphaned
  orphaned_lem min_age now claims d d₁ d₂ made listed clock =
      let T = Told (old (now - min_age) claims) in
      let paths = map (path_of disk dir times) claims in
      Works-bind (λ found d'. (found ≡ paths) × (d' ≡ d₁)) T _ _ d
        (Works-wrapped disk (λ found d'. (found ≡ paths) × (d' ≡ d₁)) _ _ d
          (let both : (paths ≡ paths) × (d₁ ≡ d₁) = (refl, refl) in (paths, d₁, listed, both)))
        λ found d' (same, at).
          Works-bind (λ n d''. (n ≡ now) × (d'' ≡ d₂)) T disk.now _ d'
            (let both : (now ≡ now) × (d₂ ≡ d₂) = (refl, refl) in
              (now, d₂, ap disk.now at ∙ clock, both))
            λ n d'' (same_now, at').
              rw (same, same_now) (orphans_among-Told (now - min_age) claims d'' made)
