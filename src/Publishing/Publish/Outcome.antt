-- ===== src/Publishing/Publish/Outcome.antt =====
-- What `publish` does, on every branch.
use taxonomy_builder.Common.{
  ℕ, ◌≡◌, ◌⊎◌, refl, sym, ◌∙◌, ap, subst, inl, inr, true, false, Option, some, [], ◌∷◌, ◌++◌, Text,
  ◌==◌, any, find, Ensures, Result, ok, raise, continue, ◌>>=◌, Bool-cases, Option-cases,
}
use taxonomy_builder.Models.Activity.{PublishedVersion}
use taxonomy_builder.Models.Session.{Db, Session, close, request}
use taxonomy_builder.Models.Snapshot.{SnapshotVocabulary}
use taxonomy_builder.Models.Vocabulary.{Project}
use taxonomy_builder.Projects.{get_project}
use taxonomy_builder.Publishing.Publish.{
  PublishError, Service, find_project, build, find_latest, same_version, has_no_key, insert_version,
  new_version, publish,
}
use taxonomy_builder.Publishing.Queries.{get_latest_finalized}
use taxonomy_builder.Snapshots.{validate_snapshot}
use taxonomy_builder.Snapshots.Build.{build_snapshot}
use taxonomy_builder.Versions.{PublishRequest, version_sort_key}

module _ {B : Type 0} (start : Session) (Done : B → Session → Type 0) where
  -- an action that raises changes nothing, and one that returns is `Done`
  abbrev pub Ends : Result PublishError B × Session → Type 0
  Ends (r, s) = Ensures Done (λ _ s. s ≡ start) r s

  -- an action that only reads, and the rest
  bind-Ends :
      {A : Type 0} (m : Service A) (f : A → Service B)
      → (m start).1 ≡ start
      → ((a : A) → (m start).0 ≡ ok a → Ends (f a start))
      → Ends ((m >>= f) start)
  bind-Ends {A} m f = go (m start).0 (m start).1
    where
      go :
          (r : Result PublishError A) (s : Session)
          → s ≡ start
          → ((a : A) → r ≡ ok a → Ends (f a start))
          → Ends (continue r f s)
      go (ok a) s e h = subst (λ s. Ends (f a s)) (sym e) (h a refl)
      go (raise x) s e h = e

pub raise_is_not_ok :
    {A : Type 0} {e : PublishError} {a : A} → ◌≡◌ {A = Result PublishError A} (raise e) (ok a) → ⊥
raise_is_not_ok h = cc

pub ok_injective : {A : Type 0} {a b : A} → ◌≡◌ {A = Result PublishError A} (ok a) (ok b) → a ≡ b
ok_injective h = cc

abbrev found : ℕ → Db → Option Project
found project_id db = find (λ p. p.id == project_id) db.projects

-- the project is there and its snapshot is built
abbrev pub Built : ℕ → Db → SnapshotVocabulary → Type 0
Built project_id db snapshot =
    (project : Project) × (found project_id db ≡ some project)
    × (build_snapshot db project ≡ some snapshot)

pub build-reads : (project_id : ℕ) (s : Session) → (build project_id s).1 ≡ s
unfolding build find_project get_project
build-reads project_id s = elim (Option-cases (found project_id s.tables)) [
  | inl e ↦ rw e refl
  | inr (p, e) ↦ rw e (elim (Option-cases (build_snapshot s.tables p)) [
    | inl f ↦ rw f refl
    | inr (snapshot, f) ↦ rw f refl
  ])
]

build-Built :
    (project_id : ℕ) (s : Session) (snapshot : SnapshotVocabulary)
    → (build project_id s).0 ≡ ok snapshot
    → Built project_id s.tables snapshot
unfolding build find_project get_project
build-Built project_id s snapshot h = elim (Option-cases (found project_id s.tables)) [
  | inl e ↦ absurd (raise_is_not_ok (rw e at h))
  | inr (p, e) ↦ (
    p,
    e,
    elim (Option-cases (build_snapshot s.tables p)) [
      | inl f ↦ absurd (raise_is_not_ok (rw (e, f) at h))
      | inr (snapshot', f) ↦ f ∙ ap some (ok_injective (rw (e, f) at h))
    ],
  )
]

Result-cases : {E A : Type 0} (r : Result E A) → ((e : E) × (r ≡ raise e)) ⊎ ((a : A) × (r ≡ ok a))
Result-cases (ok a) = inr (a, refl)
Result-cases (raise e) = inl (e, refl)

pub find_latest-reads : (project_id : ℕ) (s : Session) → (find_latest project_id s).1 ≡ s
unfolding find_latest
find_latest-reads project_id s = elim (Result-cases (get_latest_finalized s.versions project_id)) [
  | inl (e, h) ↦ rw h refl
  | inr (o, h) ↦ rw h refl
]

find_latest-ok :
    (project_id : ℕ) (s : Session) (o : Option PublishedVersion)
    → (find_latest project_id s).0 ≡ ok o
    → get_latest_finalized s.versions project_id ≡ ok o
unfolding find_latest
find_latest-ok project_id s o k = elim (Result-cases (get_latest_finalized s.versions project_id)) [
  | inl (e, h) ↦ absurd (raise_is_not_ok (rw h at k))
  | inr (o', h) ↦ h ∙ ap ok (ok_injective (rw h at k))
]

abbrev pub with_version : PublishedVersion → Db → Db
with_version row db = record db { versions = db.versions ++ row ∷ [] }

module _ (new_id now project_id : ℕ) (input : PublishRequest) (publisher : Option Text) where
  abbrev pub row_for : SnapshotVocabulary → Option PublishedVersion → PublishedVersion
  row_for = new_version new_id now project_id input publisher

  -- the row that is stored, and why it may be
  pub record Published (db : Db) (row : PublishedVersion) (db' : Db) : Type 0 where
    pub snapshot : SnapshotVocabulary
    pub previous : Option PublishedVersion
    pub built : Built project_id db snapshot
    pub valid : (validate_snapshot snapshot).valid ≡ true
    pub latest : get_latest_finalized db.versions project_id ≡ ok previous
    pub same_row : row ≡ row_for snapshot previous
    pub keyed : has_no_key (version_sort_key input.version) ≡ false
    pub free : any (same_version row) db.versions ≡ false
    pub added : db' ≡ with_version row db

  publish-Ends :
      (db : Db)
      → Ends
          (record { tables = db; committed = db })
          (λ row s. Published db row s.tables)
          (publish new_id now project_id input publisher (record { tables = db; committed = db }))
  unfolding publish insert_version
  publish-Ends db =
      let start : Session = record { tables = db; committed = db } in
      bind-Ends start _ (build project_id) _ (build-reads project_id start) (λ snapshot b.
        elim (Bool-cases (validate_snapshot snapshot).valid) [
          | inr v ↦ rw v refl
          | inl v ↦ rw v (
              bind-Ends start _ (find_latest project_id) _ (find_latest-reads project_id start)
                (λ o l. elim (Bool-cases (has_no_key (version_sort_key input.version))) [
                  | inl k ↦ rw k refl
                  | inr k ↦
                      rw k
                        (elim (Bool-cases (any (same_version (row_for snapshot o)) db.versions)) [
                          | inl f ↦ rw f refl
                          | inr f ↦ rw f (record {
                            snapshot = snapshot;
                            previous = o;
                            built = build-Built project_id start snapshot b;
                            valid = v;
                            latest = find_latest-ok project_id start o l;
                            same_row = refl;
                            keyed = k;
                            free = f;
                            added = refl;
                          })
                        ])
                ]))
        ])

  -- A request to publish that raises leaves the database as it was. One that returns a row has
  -- found the project, built a snapshot of it that is valid, and a sort key for the version; no row
  -- of the project had this version; the row holds the snapshot and the latest release as its
  -- predecessor, and it is the only thing that is added.
  pub publish-outcome :
      (db : Db)
      → Ensures
          (Published db)
          (λ _ db'. db' ≡ db)
          (request (publish new_id now project_id input publisher) db).0
          (request (publish new_id now project_id input publisher) db).1
  unfolding request
  publish-outcome db =
      let start : Session = record { tables = db; committed = db } in
      let after = publish new_id now project_id input publisher start in
      go after.0 after.1 (publish-Ends db)
    where
      go :
          (r : Result PublishError PublishedVersion) (s : Session)
          → Ends
              (record { tables = db; committed = db })
              (λ row s. Published db row s.tables)
              (r, s)
          → Ensures (Published db) (λ _ db'. db' ≡ db) (close r s).0 (close r s).1.tables
      go (ok row) s h = h
      go (raise e) s h = ap (λ t. t.committed) h

  -- a request that returns a row
  pub publish-Published :
      (db : Db) (row : PublishedVersion)
      → (request (publish new_id now project_id input publisher) db).0 ≡ ok row
      → Published db row (request (publish new_id now project_id input publisher) db).1
  publish-Published db row e =
      subst
        (λ r.
          Ensures (Published db) (λ _ d. d ≡ db) r
            (request (publish new_id now project_id input publisher) db).1)
        e (publish-outcome db)
