-- ===== src/Publishing/Publish/History.antt =====
-- The history of the versions that `publish` writes and `get_project_version` reads.
use taxonomy_builder.Common.{
  ℕ, ◌≡◌, refl, sym, ◌∙◌, ap, subst, inl, inr, Bool, true, false, not, ◌&&◌, Option, none, some,
  List, [], ◌∷◌, ◌++◌, Text, text_eq, text_eq_iff, ◌==◌, ==_iff, if◌then◌else◌, any, any-append,
  find, Ensures, Result, ok, raise, or_raise, Bool-cases, arith,
}
use taxonomy_builder.Models.Activity.{PublishedVersion}
use taxonomy_builder.Models.Session.{Db, Session, close, request}
use taxonomy_builder.Projects.{ProjectError, version_not_found, get_project_version}
use taxonomy_builder.Publishing.Publish.{
  PublishError, previous_id, has_no_key, same_version, publish,
}
use taxonomy_builder.Publishing.Publish.Outcome.{
  Published, row_for, publish-outcome, publish-Published,
}
use taxonomy_builder.Publishing.Publish.Previous.{latest_row-finalized}
use taxonomy_builder.Publishing.Queries.{get_latest_finalized, is_finalized_of}
use taxonomy_builder.Snapshots.{validate_snapshot}
use taxonomy_builder.Versions.{PublishRequest, validate_request, version_sort_key}
use taxonomy_builder.Versions.Pattern.{Reads, validate_request-Reads}

module _ {A : Type 0} where
  abbrev pub Each : (A → Type 0) → List A → Type 0
  Each P [] = Unit {0}
  Each P (x ∷ xs) = P x × Each P xs

  Each-append :
      {P Q : A → Type 0} (xs : List A) (x : A)
      → ((y : A) → P y → Q y)
      → Q x
      → Each P xs
      → Each Q (xs ++ x ∷ [])
  Each-append [] x weaken q h = (q, tt)
  Each-append (y ∷ xs) x weaken q (p, h) = (weaken y p, Each-append xs x weaken q h)

-- the version whose identifier the row has, a release of the same project
abbrev is_previous : PublishedVersion → ℕ → PublishedVersion → Bool
is_previous v id w = w.id == id && is_finalized_of v.project_id w

abbrev pub has_previous : List PublishedVersion → PublishedVersion → Option ℕ → Bool
has_previous versions v none = true
has_previous versions v (some id) = any (is_previous v id) versions

pub record IsStored (versions : List PublishedVersion) (v : PublishedVersion) : Type 0 where
  pub valid : (validate_snapshot v.snapshot).valid ≡ true
  pub keyed : has_no_key (version_sort_key v.version) ≡ false
  pub reads : Reads (not v.finalized) v.version
  pub previous : has_previous versions v v.previous_version_id ≡ true

abbrev pub HasDistinctVersions : List PublishedVersion → Type 0
HasDistinctVersions [] = Unit {0}
HasDistinctVersions (v ∷ rows) = (any (same_version v) rows ≡ false) × HasDistinctVersions rows

-- Each stored snapshot is valid; the flag of each row says how its version is read, and the version
-- has a sort key; a predecessor is a release of the same project; no project has a version twice.
abbrev pub IsHistory : List PublishedVersion → Type 0
IsHistory versions = Each (IsStored versions) versions × HasDistinctVersions versions

has_previous-append :
    (versions : List PublishedVersion) (row v : PublishedVersion) (o : Option ℕ)
    → has_previous versions v o ≡ true
    → has_previous (versions ++ row ∷ []) v o ≡ true
has_previous-append versions row v none h = refl
has_previous-append versions row v (some id) h =
    any-append (is_previous v id) versions (row ∷ []) ∙ rw h refl

IsStored-append :
    (versions : List PublishedVersion) (row v : PublishedVersion)
    → IsStored versions v
    → IsStored (versions ++ row ∷ []) v
IsStored-append versions row v h = record {
  valid = h.valid;
  keyed = h.keyed;
  reads = h.reads;
  previous = has_previous-append versions row v v.previous_version_id h.previous;
}

same_version-flip :
    (v row : PublishedVersion) → same_version row v ≡ false → same_version v row ≡ false
same_version-flip v row h = elim (Bool-cases (same_version v row)) [
  | inl e ↦
      let same = (==_iff row.project_id v.project_id).0 (ground arith) in
      let version = (text_eq_iff row.version v.version).0 (ground arith) in
      absurd (
        ground (
          arith,
          (==_iff v.project_id row.project_id).1 (sym same),
          (text_eq_iff v.version row.version).1 (sym version),
        ))
  | inr e ↦ e
]

HasDistinctVersions-append :
    (versions : List PublishedVersion) (row : PublishedVersion)
    → any (same_version row) versions ≡ false
    → HasDistinctVersions versions
    → HasDistinctVersions (versions ++ row ∷ [])
HasDistinctVersions-append [] row e h = (refl, tt)
HasDistinctVersions-append (v ∷ rows) row e (alone, h) = (
  any-append (same_version v) rows (row ∷ [])
      ∙ ground (arith, same_version-flip v row (ground arith)),
  HasDistinctVersions-append rows row (ground (arith)) h,
)

abbrev asked_for : ℕ → Text → PublishedVersion → Bool
asked_for p version row = text_eq row.version version && row.project_id == p

asked_once :
    (p : ℕ) (version : Text) (row v : PublishedVersion)
    → asked_for p version v ≡ true
    → same_version row v ≡ false
    → asked_for p version row ≡ false
asked_once p version row v a e = elim (Bool-cases (asked_for p version row)) [
  | inl b ↦
      let here = (==_iff v.project_id p).0 (ground arith) in
      let there = (==_iff row.project_id p).0 (ground arith) in
      let this = (text_eq_iff v.version version).0 (ground arith) in
      let that = (text_eq_iff row.version version).0 (ground arith) in
      absurd (
        ground (
          arith,
          (==_iff v.project_id row.project_id).1 (here ∙ sym there),
          (text_eq_iff v.version row.version).1 (this ∙ sym that),
        ))
  | inr b ↦ b
]

find_added :
    (p : ℕ) (version : Text) (rows : List PublishedVersion) (row : PublishedVersion)
    → any (same_version row) rows ≡ false
    → find (asked_for p version) (rows ++ row ∷ [])
      ≡ (if asked_for p version row then some row else find (asked_for p version) rows)
find_added p version [] row e = refl
find_added p version (v ∷ rows) row e = elim (Bool-cases (asked_for p version v)) [
  | inl a ↦ rw (a, asked_once p version row v a (ground arith)) refl
  | inr a ↦ rw a (find_added p version rows row (ground arith))
]

-- what a request to read a version answers
abbrev pub version_at : Db → ℕ → Text → Result ProjectError PublishedVersion
unfolding get_project_version
version_at db p version = (request (get_project_version p version) db).0

abbrev answer : Text → Option PublishedVersion → Result ProjectError PublishedVersion
answer version none = raise (version_not_found version)
answer version (some v) = ok v

version_at-answer :
    (db : Db) (p : ℕ) (version : Text)
    → version_at db p version ≡ answer version (find (asked_for p version) db.versions)
unfolding request get_project_version
version_at-answer db p version = go (find (asked_for p version) db.versions)
  where
    start : Session
    start = record { tables = db; committed = db }

    go :
        (o : Option PublishedVersion)
        → (let (r, s) = or_raise (version_not_found version) o start in (close r s).0)
          ≡ answer version o
    go none = refl
    go (some v) = refl

not-not : (b : Bool) → b ≡ not (not b)
not-not b = ground arith

module _ (new_id now project_id : ℕ) (input : PublishRequest) (publisher : Option Text) where
  module _ (db db' : Db) (row : PublishedVersion)
      (done : Published new_id now project_id input publisher db row db') where
    previous_of :
        (o : Option PublishedVersion)
        → get_latest_finalized db.versions project_id ≡ ok o
        → has_previous
            (db.versions ++ row ∷ [])
            (row_for new_id now project_id input publisher done.snapshot o)
            (previous_id o)
          ≡ true
    previous_of none e = refl
    previous_of (some w) e =
        any-append _ db.versions (row ∷ [])
        ∙ rw (latest_row-finalized db.versions project_id w e) refl

    IsStored-row : validate_request input ≡ ok input → IsStored (db.versions ++ row ∷ []) row
    IsStored-row accepted = subst (IsStored (db.versions ++ row ∷ [])) (sym done.same_row) (record {
      valid = done.valid;
      keyed = done.keyed;
      reads =
          subst (λ b. Reads b input.version) (not-not input.pre_release)
            (validate_request-Reads input accepted);
      previous = previous_of done.previous done.latest;
    })

    IsHistory-added :
        validate_request input ≡ ok input → IsHistory db.versions → IsHistory db'.versions
    IsHistory-added accepted (stored, distinct) =
        subst (λ d. IsHistory d.versions) (sym done.added)
          (
            Each-append db.versions row (IsStored-append db.versions row) (IsStored-row accepted)
                stored,
            HasDistinctVersions-append db.versions row done.free distinct,
          )

  -- A request to publish whose input was let through keeps the history, whether it stores a version
  -- or raises.
  pub publish-IsHistory :
      validate_request input ≡ ok input
      → (db : Db) → IsHistory db.versions
      → IsHistory (request (publish new_id now project_id input publisher) db).1.versions
  unfolding request
  publish-IsHistory accepted db h =
      let after = request (publish new_id now project_id input publisher) db in
      go after.0 after.1 (publish-outcome new_id now project_id input publisher db)
    where
      go :
          (r : Result PublishError PublishedVersion) (db' : Db)
          → Ensures (Published new_id now project_id input publisher db) (λ _ d. d ≡ db) r db'
          → IsHistory db'.versions
      go (ok row) db' done = IsHistory-added db db' row done accepted h
      go (raise e) db' same = subst (λ d. IsHistory d.versions) (sym same) h

  -- After a request to publish that returns a row, the row's version of its project reads that row,
  -- and every other version of every project reads what it read before.
  pub publish-get :
      (db : Db) (row : PublishedVersion)
      → (request (publish new_id now project_id input publisher) db).0 ≡ ok row
      → (p : ℕ) (version : Text)
      → version_at (request (publish new_id now project_id input publisher) db).1 p version ≡ (
          if text_eq row.version version && row.project_id == p
          then ok row
          else version_at db p version)
  publish-get db row e p version =
      let done = publish-Published new_id now project_id input publisher db row e in
      version_at-answer _ p version
      ∙ ap (λ d. answer version (find (asked_for p version) d.versions)) done.added
      ∙ ap (answer version) (find_added p version db.versions row done.free)
      ∙ (elim (Bool-cases (asked_for p version row)) [
        | inl a ↦ rw a refl
        | inr a ↦ rw a (sym (version_at-answer db p version))
      ])
