-- ===== src/Publishing/Publish/Foretold.antt =====
-- What `preview` shows decides how `publish` ends.
use taxonomy_builder.Common.{
  ℕ, ◌≡◌, refl, sym, ◌∙◌, ap, subst, inl, inr, Option, List, Text, if◌then◌else◌, any, Exec, Result,
  ok, raise, continue, pure, ◌>>=◌, Bool-cases,
}
use taxonomy_builder.Models.Activity.{PublishedVersion}
use taxonomy_builder.Models.Session.{Db, Session, close, request}
use taxonomy_builder.Models.Snapshot.{SnapshotVocabulary}
use taxonomy_builder.Publishing.Publish.{
  PublishError, no_sort_key, version_conflict, validation_failed, Service, PublishPreview, build,
  find_latest, diff_with, preview, has_no_key, same_version, insert_version, publish,
}
use taxonomy_builder.Publishing.Publish.Outcome.{
  build-reads, find_latest-reads, row_for, raise_is_not_ok, ok_injective,
}
use taxonomy_builder.Snapshots.{validate_snapshot}
use taxonomy_builder.Snapshots.Diff.Fields.{Value}
use taxonomy_builder.Versions.{PublishRequest, version_sort_key}

-- the action before the rest of one that returns
bind_ok :
    {A B : Type 0} (m : Service A) (f : A → Service B) (s : Session) (b : B)
    → ((m >>= f) s).0 ≡ ok b
    → (a : A) × ((m s).0 ≡ ok a) × ((f a (m s).1).0 ≡ ok b)
bind_ok {A} {B} m f s b = go (m s).0
  where
    go :
        (r : Result PublishError A)
        → (continue r f (m s).1).0 ≡ ok b
        → (a : A) × (r ≡ ok a) × ((f a (m s).1).0 ≡ ok b)
    go (ok a) h = (a, refl, h)
    go (raise e) h = absurd (raise_is_not_ok h)

-- the same of an action that only reads
reads_ok :
    {A B : Type 0} (m : Service A) (f : A → Service B) (s : Session) (b : B)
    → (m s).1 ≡ s
    → ((m >>= f) s).0 ≡ ok b
    → (a : A) × ((m s).0 ≡ ok a) × ((f a s).0 ≡ ok b)
reads_ok m f s b r h =
    let (a, e, k) = bind_ok m f s b h in (a, e, subst (λ t. (f a t).0 ≡ ok b) r k)

-- an action that reads, before the rest
bind_reads :
    {A B : Type 0} (m : Service A) (f : A → Service B) (s : Session) (a : A)
    → (m s).0 ≡ ok a
    → (m s).1 ≡ s
    → (m >>= f) s ≡ f a s
bind_reads m f s a e r = rw (e, r) refl

close_result : {E A : Type 0} (r : Result E A) (s : Session) → (close r s).0 ≡ r
close_result (ok a) s = refl
close_result (raise e) s = refl

request_result :
    {E A : Type 0} (m : Exec Session E A) (db : Db)
    → (request m db).0 ≡ (m (record { tables = db; committed = db })).0
unfolding request
request_result m db = close_result _ _

-- how `publish` ends with the row that it makes
abbrev pub answer :
    PublishPreview → List PublishedVersion → PublishedVersion → Result PublishError PublishedVersion
answer view versions row =
    if view.validation.valid
    then if has_no_key (version_sort_key row.version)
      then raise no_sort_key
      else if any (same_version row) versions
      then raise (version_conflict row.version)
      else ok row
    else raise (validation_failed view.validation)

module _ (str : Value → Text) (project_id : ℕ) (db : Db) where
  abbrev start : Session
  start = record { tables = db; committed = db }

  -- what a preview that is shown has read
  record Seen (view : PublishPreview) : Type 0 where
    snapshot : SnapshotVocabulary
    latest : Option PublishedVersion
    built : (build project_id start).0 ≡ ok snapshot
    found : (find_latest project_id start).0 ≡ ok latest
    validated : view.validation ≡ validate_snapshot snapshot

  preview-Seen :
      (view : PublishPreview) → (request (preview str project_id) db).0 ≡ ok view → Seen view
  unfolding preview
  preview-Seen view h =
      let (snapshot, b, h1) =
        reads_ok (build project_id) _ start view (build-reads project_id start)
          (sym (request_result (preview str project_id) db) ∙ h) in
      let (o, f, h2) =
        reads_ok (find_latest project_id) _ start view (find_latest-reads project_id start) h1 in
      let (diff, d, h3) = bind_ok (diff_with str snapshot o) _ start view h2 in
      record {
        snapshot = snapshot;
        latest = o;
        built = b;
        found = f;
        validated = sym (ap (λ v. v.validation) (ok_injective h3));
      }

  module _ (new_id now : ℕ) (input : PublishRequest) (publisher : Option Text) where
    stored :
        (row : PublishedVersion)
        → ((insert_version row >>= λ _. pure row) start).0 ≡ (
            if has_no_key (version_sort_key row.version)
            then raise no_sort_key
            else if any (same_version row) db.versions
            then raise (version_conflict row.version)
            else ok row)
    unfolding insert_version
    stored row = elim (Bool-cases (has_no_key (version_sort_key row.version))) [
      | inl k ↦ rw k refl
      | inr k ↦ elim (Bool-cases (any (same_version row) db.versions)) [
        | inl f ↦ rw (k, f) refl
        | inr f ↦ rw (k, f) refl
      ]
    ]

    -- the run, by the steps that the preview has made
    publish_runs :
        (view : PublishPreview) (seen : Seen view)
        → (publish new_id now project_id input publisher start).0
          ≡ answer view db.versions
              (row_for new_id now project_id input publisher seen.snapshot seen.latest)
    unfolding publish
    publish_runs view seen =
        ap (λ r. r.0)
          (bind_reads (build project_id) _ start seen.snapshot seen.built
            (build-reads project_id start))
        ∙ (elim (Bool-cases (validate_snapshot seen.snapshot).valid) [
          | inr v ↦ rw (seen.validated, v) refl
          | inl v ↦
              rw (seen.validated, v)
                (ap (λ r. r.0)
                    (bind_reads (find_latest project_id) _ start seen.latest seen.found
                      (find_latest-reads project_id start))
                  ∙ stored
                      (row_for new_id now project_id input publisher seen.snapshot seen.latest))
        ])

    -- Where a preview is shown, a request to publish ends as it foretells: if its validation fails,
    -- with that validation; else with an error if the version has no sort key, or if the project
    -- has it, and in all other cases with the new row, which has the version that was asked for.
    pub publish-preview :
        (view : PublishPreview)
        → (request (preview str project_id) db).0 ≡ ok view
        → (row : PublishedVersion) × (row.project_id ≡ project_id)
          × (row.version ≡ input.version)
          × ((request (publish new_id now project_id input publisher) db).0
              ≡ answer view db.versions row)
    publish-preview view h =
        let seen = preview-Seen view h in
        (
          row_for new_id now project_id input publisher seen.snapshot seen.latest,
          refl,
          refl,
          request_result (publish new_id now project_id input publisher) db
              ∙ publish_runs view seen,
        )
