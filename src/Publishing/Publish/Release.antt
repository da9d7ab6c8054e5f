-- ===== src/Publishing/Publish/Release.antt =====
-- The latest release of a project after `publish` has stored a release.
use taxonomy_builder.Common.{ℕ, ◌≡◌, refl, ◌∙◌, ap, true, false, Option, Text, ==_iff, any, ok}
use taxonomy_builder.Models.Activity.{PublishedVersion}
use taxonomy_builder.Models.Session.{Db, request}
use taxonomy_builder.Publishing.Publish.{publish}
use taxonomy_builder.Publishing.Publish.Newest.{next_latest, is_unreleased, latest-append}
use taxonomy_builder.Publishing.Publish.Outcome.{Published, publish-Published}
use taxonomy_builder.Publishing.Queries.{key_of, is_finalized_of, get_latest_finalized}
use taxonomy_builder.Versions.{PublishRequest}

module _ (new_id now project_id : ℕ) (input : PublishRequest) (publisher : Option Text) where
  row_is_final :
      (db db' : Db) (row : PublishedVersion)
      → Published new_id now project_id input publisher db row db'
      → input.pre_release ≡ false
      → is_finalized_of project_id row ≡ true
  row_is_final db db' row done release =
      ap (is_finalized_of project_id) done.same_row
      ∙ rw (release, (==_iff project_id project_id).1 refl) refl

  -- After a request to publish a release that returns its row, where no pre-release of the project
  -- has the row's sort key: the row is the latest release if there was none or if its key is after
  -- that of the one there was; an older one leaves that one the latest; and where both have the same
  -- key, the query for the latest release fails.
  pub publish-next_latest :
      (db : Db) (row : PublishedVersion) (previous : Option PublishedVersion)
      → input.pre_release ≡ false
      → get_latest_finalized db.versions project_id ≡ ok previous
      → any (is_unreleased project_id (key_of row)) db.versions ≡ false
      → (request (publish new_id now project_id input publisher) db).0 ≡ ok row
      → get_latest_finalized
          (request (publish new_id now project_id input publisher) db).1.versions
          project_id
        ≡ next_latest previous row
  publish-next_latest db row previous release latest alone e =
      let done = publish-Published new_id now project_id input publisher db row e in
      ap (λ d. get_latest_finalized d.versions project_id) done.added
      ∙ latest-append db.versions project_id row (row_is_final db _ row done release) _ previous
          refl latest alone
