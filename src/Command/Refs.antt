-- ===== src/Command/Refs.antt =====
-- crates/forge-command/src/refs.rs: the canonical reference map.
pub mod Names
pub mod Laws
use crabforge.Prelude.{
  ℕ, Bool, true, false, ◌&&◌, ◌||◌, not, List, [], ◌∷◌, ◌++◌, Option, none, some, ltb, leb, ◌==◌,
  if◌then◌else◌, all, any, Result, ok, err,
}
use crabforge.Str.{
  Text, codes, len, text_eq, starts_with, ends_with, contains, strip_prefix, is_ascii_control,
}
use crabforge.HashMap
use crabforge.Types.Oid.{Oid}
use crabforge.Bus.Writer.{Bytes}

pub record RefValue : Type 0 where
  pub oid : Oid

-- `format!("{repo}/{name}")`
unfoldable pub ref_key : (ℕ → Text) → ℕ → Text → Text
ref_key uuid_text repo name = uuid_text repo ++ b'/' ∷ name

pub record RefUpdate : Type 0 where
  pub name : Text
  pub expected_old : Option Oid
  pub new : Option Oid

pub data RefRejection : Type 0 where
  stale : (expected actual : Option Oid) → RefRejection
  deleting_missing bad_name : RefRejection

pub record RefResult : Type 0 where
  pub name : Text
  pub outcome : Result (Unit {0}) RefRejection

abbrev pub RefMap : Type 0
RefMap = List (Text × Oid)

abbrev pub new_ref_map : RefMap
new_ref_map = []

-- `RefMap::apply`; `decode` is `serde_json::from_slice::<RefValue>`.
unfoldable pub apply_ref : (Bytes → Option RefValue) → Text → Option Bytes → RefMap → RefMap
apply_ref decode key (some bytes) refs = elim (decode bytes) [
  | some v ↦ HashMap.insert key v.oid refs
  | none ↦ refs
]
apply_ref decode key none refs = HashMap.remove key refs

-- `RefMap::get`
unfoldable pub get_ref : (ℕ → Text) → ℕ → Text → RefMap → Option Oid
unfolding ref_key
get_ref uuid_text repo name refs = HashMap.get (ref_key uuid_text repo name) refs

-- `RefMap::set`
unfoldable pub set_ref : (ℕ → Text) → ℕ → Text → Option Oid → RefMap → RefMap
unfolding ref_key
set_ref uuid_text repo name (some oid) refs = HashMap.insert (ref_key uuid_text repo name) oid refs
set_ref uuid_text repo name none refs = HashMap.remove (ref_key uuid_text repo name) refs

-- `==` on `Option<Oid>`
unfoldable pub same_oid : Option Oid → Option Oid → Bool
same_oid none none = true
same_oid none (some _) = false
same_oid (some _) none = false
same_oid (some a) (some b) = text_eq a b

abbrev pub is_none : Option Oid → Bool
is_none none = true
is_none (some _) = false

-- The chars that the last test of `is_valid_ref_name` refuses besides the control characters.
abbrev pub forbidden : List ℕ
forbidden = b' ' ∷ b'~' ∷ b'^' ∷ b':' ∷ b'?' ∷ b'*' ∷ b'[' ∷ 92 ∷ 127 ∷ []

abbrev pub is_ref_char : ℕ → Bool
is_ref_char c = not (is_ascii_control c) && not (any (λ d. c == d) forbidden)

unfoldable pub is_valid_ref_name : Text → Bool
unfolding len starts_with ends_with contains
is_valid_ref_name name =
    if not (starts_with (codes "refs/") name) || ltb 255 (len name)
    then false
    else if contains (codes "..") name
        || (contains (codes "//") name
            || (ends_with (codes "/") name || ends_with (codes ".lock") name))
    then false
    else all is_ref_char name

-- `RefMap::check`
unfoldable pub check : (ℕ → Text) → ℕ → RefUpdate → RefMap → Result (Unit {0}) RefRejection
unfolding is_valid_ref_name get_ref same_oid
check uuid_text repo update refs =
    let actual = get_ref uuid_text repo update.name refs in
    if not (is_valid_ref_name update.name)
    then err bad_name
    else if not (same_oid actual update.expected_old)
    then err (stale update.expected_old actual)
    else if is_none update.new && is_none actual
    then err deleting_missing
    else ok tt

-- `filter_map` over the entries whose key starts with `prefix`.
unfoldable pub entries_under : Text → RefMap → List (Text × Oid)
unfolding strip_prefix
entries_under prefix [] = []
entries_under prefix ((key, oid) ∷ refs) =
    let rest = entries_under prefix refs in
    elim (strip_prefix prefix key) [ none ↦ rest | some name ↦ (name, oid) ∷ rest ]

-- The lexicographic order of texts and of byte arrays.
unfoldable pub text_leb : Text → Text → Bool
text_leb [] t = true
text_leb (c ∷ s) [] = false
text_leb (c ∷ s) (d ∷ t) = let rest = text_leb s t in if ltb c d then true else (c == d && rest)

-- The order of pairs: by name, then by object id.
abbrev pub entry_leb : Text × Oid → Text × Oid → Bool
entry_leb (n, a) (m, b) = if text_eq n m then text_leb a b else text_leb n m

unfoldable pub insert_sorted : Text × Oid → List (Text × Oid) → List (Text × Oid)
unfolding text_leb
insert_sorted e [] = e ∷ []
insert_sorted e (f ∷ out) =
    let rest = insert_sorted e out in if entry_leb e f then e ∷ f ∷ out else f ∷ rest

-- `out.sort()`
unfoldable pub sort : List (Text × Oid) → List (Text × Oid)
unfolding insert_sorted
sort [] = []
sort (e ∷ out) = insert_sorted e (sort out)

-- `RefMap::for_repo`
unfoldable pub for_repo : (ℕ → Text) → ℕ → RefMap → List (Text × Oid)
unfolding entries_under sort
for_repo uuid_text repo refs = sort (entries_under (uuid_text repo ++ codes "/") refs)
