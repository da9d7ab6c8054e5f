-- ===== src/Tests/Comments.antt =====
-- The theorems about comments at one comment on the place, and a reply to it from the school.
use taxonomy_builder.Common.{
  ℕ, ◌≡◌, refl, false, ◌&&◌, ◌||◌, none, some, text, List, [], ◌∷◌, ok, any, ◌==◌,
}
use taxonomy_builder.Models.Activity.{Comment}
use taxonomy_builder.Models.Session.{Db, request}
use taxonomy_builder.Comments.{
  Author, CommentCreate, is_none, new_comment, create_comment, delete_comment, resolve_comment,
  unresolve_comment, comments_of, top_level, threads_from,
}
use taxonomy_builder.Comments.Invariant.{Threaded, comments-Threaded}
use taxonomy_builder.Comments.Threads.{shown, answers, shown-threads, foreign_reply_unseen}
use taxonomy_builder.Tests.{db, school}

abbrev author : Author
author = record { user_id = 5; now = 100 }

abbrev top : Comment
top = new_comment author 80 10 (record { content = text "Too broad?"; parent_comment_id = none })

abbrev reply : CommentCreate
reply = record { content = text "No."; parent_comment_id = some 80 }

abbrev comment_db : Db
comment_db = record db { comments = top ∷ [] }

db-Threaded : Threaded comment_db
db-Threaded = record { unique = (refl, tt); all_fit = refl }

comments-Threaded_example :
    Threaded (request (create_comment author 81 10 reply) comment_db).1
    × Threaded (request (delete_comment author 81) comment_db).1
    × Threaded (request (resolve_comment author 81) comment_db).1
    × Threaded (request (unresolve_comment author 81) comment_db).1
comments-Threaded_example = comments-Threaded author comment_db 81 10 reply db-Threaded

abbrev listed : List Comment
listed = top ∷ new_comment author 81 10 reply ∷ []

shown-threads_example :
    shown 81 (threads_from listed (top_level listed))
    ≡ any (λ x. (is_none x.parent_comment_id || answers (top_level listed) x) && x.id == 81) listed
shown-threads_example = shown-threads 81 listed

foreign_reply_unseen_example :
    (request (create_comment author 81 11 reply) comment_db ≡ (
      ok (new_comment author 81 11 reply),
      record comment_db { comments = top ∷ new_comment author 81 11 reply ∷ [] },
    ))
    × ((d : ℕ)
        → (let seen = comments_of (top ∷ new_comment author 81 11 reply ∷ []) d none in
            shown 81 (threads_from seen (top_level seen)) ≡ false))
foreign_reply_unseen_example =
    foreign_reply_unseen author comment_db 81 11 (text "No.") school top refl refl refl refl refl
