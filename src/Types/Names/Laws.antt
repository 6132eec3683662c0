-- ===== src/Types/Names/Laws.antt =====
-- Which names are accepted, and what an accepted name is read back as.
use crabforge.Prelude.{
  length-append, ℕ, ◌≤◌, ◌≡◌, refl, sym, ap, ◌∙◌, ◌≢◌, ◌↔◌, true, false, ◌||◌, [], ◌∷◌, ◌++◌, arith,
  all, Result, ok, err, and_then, length,
}
use crabforge.Str.{Text, codes, len, text_eq, ends_with, is_ascii_alphanumeric, to_ascii_lowercase}
use crabforge.Str.Laws.{to_ascii_lowercase_idem}
use crabforge.Str.Suffix.{strip_suffix-append, strip_suffix-none}
use crabforge.Types.Names.{
  validate, is_legal, is_reserved_namespace, Username, parse_username, max_username, RepoName,
  parse_repo_name, max_repo_name, strip_git,
}

-- The rules for a name, as a predicate.
abbrev pub Starts : Text → Type 0
Starts [] = ⊥
Starts (c ∷ s) = is_ascii_alphanumeric c ≡ true

pub record IsName (max : ℕ) (raw : Text) : Type 0 where
  pub bounded : len raw ≤ max
  pub legal : all is_legal raw ≡ true
  pub starts : Starts raw
  pub no_final_dot : ends_with (codes ".") raw ≡ false

pub validate-IsName : (raw : Text) (max : ℕ) → validate raw max ≡ ok tt → IsName max raw
unfolding validate
validate-IsName [] max h = cc
validate-IsName (c ∷ s) max h = ground arith

pub IsName-validate : (raw : Text) (max : ℕ) → IsName max raw → validate raw max ≡ ok tt
unfolding validate
IsName-validate [] max h = elim h.starts [ ]
IsName-validate (c ∷ s) max h = ground arith

and_then_ok {ℓ} :
    {E B : Type ℓ} (r : Result (Unit {0}) E) (f : Unit {0} → Result B E) {b : B}
    → and_then r f ≡ ok b
    → (r ≡ ok tt) × (f tt ≡ ok b)
and_then_ok (ok tt) f h = (refl, h)
and_then_ok (err e) f h = cc

abbrev pub username_of : Text → Username
username_of raw = record { raw = raw; lower = to_ascii_lowercase raw }

reserved_lower :
    (raw : Text) → is_reserved_namespace (to_ascii_lowercase raw) ≡ is_reserved_namespace raw
unfolding is_reserved_namespace
reserved_lower raw = rw (to_ascii_lowercase_idem raw)

-- A text is accepted as a username exactly when it is a name of at most 39 bytes that is not
-- reserved, whatever its case; the username then holds the text and its lower-case form.
pub parse_username_iff :
    (raw : Text) (u : Username)
    → (parse_username raw ≡ ok u)
      ↔ (IsName 39 raw × (is_reserved_namespace raw ≡ false) × (u ≡ username_of raw))
unfolding parse_username
parse_username_iff raw u = (
  λ h.
      let (valid, rest) = and_then_ok (validate raw max_username) _ h in
      let free : is_reserved_namespace (to_ascii_lowercase raw) ≡ false = ground arith in
      (validate-IsName raw 39 valid, sym (reserved_lower raw) ∙ free, ground arith),
  λ p. rw (IsName-validate raw 39 p.0, reserved_lower raw, p.1) (ap ok (sym p.2)),
)

abbrev pub repo_name_of : Text → RepoName
repo_name_of raw = record { raw = raw; lower = to_ascii_lowercase raw }

no_start_dot :
    (raw : Text) → IsName 100 raw → (text_eq raw (codes ".") || text_eq raw (codes "..")) ≡ false
unfolding text_eq
no_start_dot [] v = elim v.starts [ ]
no_start_dot (c ∷ s) v = let first : is_ascii_alphanumeric c ≡ true = v.starts in ground arith

-- A text is accepted as a repository name exactly when what is left after taking one final `.git`
-- away is a name of at most 100 bytes; that remainder and its lower-case form are kept.
pub parse_repo_name_iff :
    (given : Text) (r : RepoName)
    → (parse_repo_name given ≡ ok r)
      ↔ (IsName 100 (strip_git given) × (r ≡ repo_name_of (strip_git given)))
unfolding parse_repo_name
parse_repo_name_iff given r = (
  λ h.
      let (valid, rest) = and_then_ok (validate (strip_git given) max_repo_name) _ h in
      let v = validate-IsName (strip_git given) 100 valid in
      (
        v,
        let same : ok (repo_name_of (strip_git given)) ≡ ok r = rw (no_start_dot _ v) at rest in cc,
      ),
  λ p. rw (IsName-validate (strip_git given) 100 p.0, no_start_dot _ p.0) (ap ok (sym p.1)),
)

abbrev pub dot_git : Text
dot_git = codes ".git"

strip_git-append : (s : Text) → strip_git (s ++ dot_git) ≡ s
unfolding strip_git
strip_git-append s = rw (strip_suffix-append dot_git s, strip_git)

strip_git_none : (s : Text) → ends_with dot_git s ≡ false → strip_git s ≡ s
unfolding strip_git
strip_git_none s h = rw (strip_suffix-none dot_git s h, strip_git)

-- `name.git` is accepted exactly when `name` is, and as the same repository name, for every `name`
-- that does not itself end in `.git`.
pub parse_repo_name_git :
    (s : Text) → ends_with dot_git s ≡ false → parse_repo_name (s ++ dot_git) ≡ parse_repo_name s
unfolding parse_repo_name
parse_repo_name_git s h = rw (strip_git-append s, strip_git_none s h)

longer_git : (s : Text) → s ++ dot_git ≢ s
longer_git s e = omega (arith, ap length e, length-append s dot_git)

-- A repository created under a text with two final `.git`s keeps one of them, and its stored name
-- is not read back as itself: reading it takes the other one away.
pub parse_repo_name_double_git :
    (s : Text) {r : RepoName}
    → parse_repo_name ((s ++ dot_git) ++ dot_git) ≡ ok r
    → (r.raw ≡ s ++ dot_git) × (parse_repo_name r.raw ≢ ok r)
parse_repo_name_double_git s {r} h =
    let kept : r.raw ≡ s ++ dot_git =
      ap (λ q. q.raw) ((parse_repo_name_iff _ r).0 h).1 ∙ strip_git-append (s ++ dot_git) in
    (
      kept,
      λ again.
          let back : r.raw ≡ s =
            ap (λ q. q.raw) ((parse_repo_name_iff r.raw r).0 again).1
            ∙ (ap strip_git kept ∙ strip_git-append s) in
          longer_git s (sym kept ∙ back),
    )
