-- ===== src/Comments.antt =====
-- `CommentService` of backend/src/taxonomy_builder/services/comment_service.py: comments on concepts,
-- with replies to them.
pub mod Threads
pub mod Rules
pub mod Invariant
use taxonomy_builder.Common.{
  ltb, length, ◌||◌, ℕ, Bool, true, false, not, ◌&&◌, ◌||◌, Option, none, some, List, [], ◌∷◌, ◌++◌,
  Text, text, strip, is_empty, ◌==◌, ltb, if◌then◌else◌, find, filter, any, Exec, Result, ok, raise,
  pure, throw, or_raise, raise_if, ◌>>=◌, ◌>>◌,
}
use taxonomy_builder.Common.Sort.{order_by}
use taxonomy_builder.Models.Vocabulary.{Concept}
use taxonomy_builder.Models.Activity.{Comment}
use taxonomy_builder.Models.Session.{Session}

-- who comments, and the clock
pub record Author : Type 0 where
  pub user_id : ℕ
  pub now : ℕ

-- InvalidParentCommentError is raised for two reasons; `integrity_error` is the database's own
pub data CommentError : Type 0 where
  concept_not_found : ℕ → CommentError
  comment_not_found : ℕ → CommentError
  not_comment_owner : ℕ → ℕ → CommentError
  not_top_level : ℕ → Text → CommentError
  parent_not_found : ℕ → CommentError
  parent_is_reply : CommentError
  integrity_error : CommentError

abbrev pub Service : Type 0 → Type 0
Service = Exec Session CommentError

pub record CommentCreate : Type 0 where
  pub content : Text
  pub parent_comment_id : Option ℕ

-- the limit of the content, and `strip_and_validate_content`
abbrev pub validate_content : Text → Option Text
validate_content content =
    if ltb 10000 (length content) || is_empty (strip content) then none else some (strip content)

abbrev pub is_none : {A : Type 0} → Option A → Bool
is_none none = true
is_none (some x) = false

abbrev pub equals : Option ℕ → ℕ → Bool
equals none n = false
equals (some m) n = m == n

abbrev pub is_live : ℕ → Comment → Bool
is_live comment_id x = x.id == comment_id && is_none x.deleted_at

-- `_get_concept`
pub get_concept : ℕ → Service Concept
get_concept concept_id s =
    or_raise (concept_not_found concept_id) (find (λ x. x.id == concept_id) s.concepts) s

-- `_get_comment`
pub get_comment : ℕ → Service Comment
get_comment comment_id s =
    or_raise (comment_not_found comment_id) (find (is_live comment_id) s.comments) s

-- `_validate_parent_comment`
pub find_parent : ℕ → Service Comment
find_parent parent_comment_id s =
    or_raise (parent_not_found parent_comment_id) (find (is_live parent_comment_id) s.comments) s

unfoldable pub validate_parent_comment : ℕ → Service (Unit {0})
unfolding find_parent
validate_parent_comment parent_comment_id = do
  parent ← find_parent parent_comment_id
  raise_if (not (is_none parent.parent_comment_id)) parent_is_reply

pub validate_parent : Option ℕ → Service (Unit {0})
unfolding validate_parent_comment
validate_parent none = pure tt
validate_parent (some parent_comment_id) = validate_parent_comment parent_comment_id

abbrev pub with_comments : List Comment → Session → Session
with_comments rows s = record s { tables = record s.tables { comments = rows } }

-- the primary key is unique
pub insert_comment : Comment → Service (Unit {0})
insert_comment row s =
    if any (λ x. x.id == row.id) s.comments
    then (raise integrity_error, s)
    else (ok tt, with_comments (s.comments ++ row ∷ []) s)

-- the flush of a changed row: an UPDATE of the columns that changed, by the row's id
abbrev pub update_rows : ℕ → (Comment → Comment) → List Comment → List Comment
update_rows id f [] = []
update_rows id f (x ∷ rows) =
    if x.id == id then f x ∷ update_rows id f rows else x ∷ update_rows id f rows

-- where no column changed, no UPDATE is sent
pub write_comment : Bool → ℕ → (Comment → Comment) → Service (Unit {0})
write_comment true id f s = (ok tt, with_comments (update_rows id f s.comments) s)
write_comment false id f s = (ok tt, s)

module _ (author : Author) where
  abbrev pub new_comment : ℕ → ℕ → CommentCreate → Comment
  new_comment new_id concept_id comment_in = record {
    id = new_id;
    concept_id = concept_id;
    user_id = author.user_id;
    parent_comment_id = comment_in.parent_comment_id;
    content = comment_in.content;
    created_at = author.now;
    updated_at = author.now;
    deleted_at = none;
    resolved_at = none;
    resolved_by = none;
  }

  unfoldable pub create_comment : ℕ → ℕ → CommentCreate → Service Comment
  unfolding get_concept validate_parent insert_comment get_comment
  create_comment new_id concept_id comment_in = do
    get_concept concept_id
    validate_parent comment_in.parent_comment_id
    insert_comment (new_comment new_id concept_id comment_in)
    get_comment new_id

  -- `updated_at` has `onupdate=datetime.now`
  abbrev pub deleted : Comment → Comment
  deleted x = record x { deleted_at = some author.now; updated_at = author.now }

  unfoldable pub delete_comment : ℕ → Service (Unit {0})
  unfolding get_comment write_comment
  delete_comment comment_id = do
    comment ← get_comment comment_id
    raise_if (not (comment.user_id == author.user_id)) (not_comment_owner comment_id author.user_id)
    write_comment true comment.id deleted

  abbrev pub resolved : Comment → Comment
  resolved x = record x {
    resolved_at = some author.now;
    resolved_by = some author.user_id;
    updated_at = author.now;
  }

  unfoldable pub resolve_comment : ℕ → Service (Unit {0})
  unfolding get_comment write_comment
  resolve_comment comment_id = do
    comment ← get_comment comment_id
    raise_if (not (is_none comment.parent_comment_id)) (not_top_level comment.id (text "resolve"))
    write_comment (is_none comment.resolved_at) comment.id resolved

  abbrev pub unresolved : Comment → Comment
  unresolved x = record x { resolved_at = none; resolved_by = none; updated_at = author.now }

  unfoldable pub unresolve_comment : ℕ → Service (Unit {0})
  unfolding get_comment write_comment
  unresolve_comment comment_id = do
    comment ← get_comment comment_id
    raise_if (not (is_none comment.parent_comment_id)) (not_top_level comment.id (text "unresolve"))
    write_comment (not (is_none comment.resolved_at && is_none comment.resolved_by)) comment.id
        unresolved

-- the subquery: the top-level comments that are resolved, or that are not
abbrev in_subquery : List Comment → ℕ → Bool → ℕ → Bool
in_subquery rows concept_id want id =
    any
      (λ x.
        x.concept_id == concept_id
        && is_none x.parent_comment_id
        && (if want then not (is_none x.resolved_at) else is_none x.resolved_at)
        && x.id == id)
      rows

abbrev parent_in : (ℕ → Bool) → Option ℕ → Bool
parent_in inside none = false
parent_in inside (some parent) = inside parent

-- `or_(id.in_(subquery), parent_comment_id.in_(subquery))`, where a filter is asked for
abbrev passes : List Comment → ℕ → Option Bool → Comment → Bool
passes rows concept_id none x = true
passes rows concept_id (some want) x =
    in_subquery rows concept_id want x.id
    || parent_in (in_subquery rows concept_id want) x.parent_comment_id

-- the query of `get_comments`
abbrev pub comments_of : List Comment → ℕ → Option Bool → List Comment
comments_of rows concept_id want =
    order_by (λ x y. ltb x.created_at y.created_at)
      (filter
        (λ x. x.concept_id == concept_id && is_none x.deleted_at && passes rows concept_id want x)
        rows)

unfoldable pub get_comments : ℕ → Option Bool → Service (List Comment)
unfolding get_concept
get_comments concept_id want s =
    (do get_concept concept_id; pure (comments_of s.comments concept_id want)) s

abbrev pub top_level : List Comment → List Comment
top_level comments = filter (λ x. is_none x.parent_comment_id) comments

-- `replies_by_parent[parent]`
abbrev pub replies_to : ℕ → List Comment → List Comment
replies_to parent comments = filter (λ x. equals x.parent_comment_id parent) comments

-- the threads: each top-level comment with its replies, as the API puts them together
abbrev pub threads_from : List Comment → List Comment → List (Comment × List Comment)
threads_from comments [] = []
threads_from comments (x ∷ tops) = (x, replies_to x.id comments) ∷ threads_from comments tops

-- `list_comment_threads`
unfoldable pub list_comment_threads : ℕ → Option Bool → Service (List (Comment × List Comment))
unfolding get_comments
list_comment_threads concept_id want = do
  comments ← get_comments concept_id want
  pure (threads_from comments (top_level comments))
