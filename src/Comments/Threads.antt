-- ===== src/Comments/Threads.antt =====
-- Which comments the threads of a concept show.
use taxonomy_builder.Common.{
  ℕ, ◌≡◌, refl, sym, ◌∙◌, ap, inl, inr, Bool, true, false, ◌&&◌, ◌||◌, none, some, List, [], ◌∷◌,
  ◌++◌, Text, ◌==◌, filter, find, any, any-append, ok, Bool-cases, arith, ==_refl, ltb,
}
use taxonomy_builder.Common.Sort.{any-order_by}
use taxonomy_builder.Models.Vocabulary.{Concept}
use taxonomy_builder.Models.Activity.{Comment}
use taxonomy_builder.Models.Session.{Db, request}
use taxonomy_builder.Comments.{
  Author, CommentCreate, is_none, equals, is_live, get_concept, get_comment, find_parent,
  validate_parent_comment, validate_parent, insert_comment, new_comment, create_comment,
  comments_of, top_level, threads_from,
}

-- a comment is at the head of a thread, or among the replies
abbrev pub shown : ℕ → List (Comment × List Comment) → Bool
shown id [] = false
shown id ((x, replies) ∷ threads) = x.id == id || any (λ y. y.id == id) replies || shown id threads

module _ {A : Type 0} where
  any-filter : (f g : A → Bool) (xs : List A) → any g (filter f xs) ≡ any (λ x. f x && g x) xs
  any-filter f g [] = refl
  any-filter f g (x ∷ xs) = ground (arith, any-filter f g xs)

  any-and_false : (f : A → Bool) (xs : List A) → any (λ x. f x && false) xs ≡ false
  any-and_false f [] = refl
  any-and_false f (x ∷ xs) = ground (arith, any-and_false f xs)

  any-split :
      (f g h : A → Bool) (xs : List A)
      → any (λ x. f x && (g x || h x)) xs ≡ (any (λ x. f x && g x) xs || any (λ x. f x && h x) xs)
  any-split f g h [] = refl
  any-split f g h (x ∷ xs) = ground (arith, any-split f g h xs)

  any_weaker :
      (f g : A → Bool) (xs : List A)
      → ((x : A) → g x ≡ true → f x ≡ true)
      → any f xs ≡ false
      → any g xs ≡ false
  any_weaker f g [] h e = refl
  any_weaker f g (x ∷ xs) h e = elim (Bool-cases (g x)) [
    | inl t ↦ absurd (ground (arith, h x t))
    | inr t ↦ ground (arith, any_weaker f g xs h)
  ]

-- a reply to one of these
abbrev pub answers : List Comment → Comment → Bool
answers tops x = any (λ t. equals x.parent_comment_id t.id) tops

shown-threads_from :
    (id : ℕ) (comments tops : List Comment)
    → shown id (threads_from comments tops)
      ≡ (any (λ t. t.id == id) tops || any (λ x. x.id == id && answers tops x) comments)
shown-threads_from id comments [] = sym (any-and_false (λ x. x.id == id) comments)
shown-threads_from id comments (t ∷ tops) = ground (
  arith,
  any-filter (λ x. equals x.parent_comment_id t.id) (λ y. y.id == id) comments,
  shown-threads_from id comments tops,
  any-split (λ x. x.id == id) (λ x. equals x.parent_comment_id t.id) (answers tops) comments,
)

any_or_comm :
    (id : ℕ) (f g : Comment → Bool) (xs : List Comment)
    → any (λ x. (f x || g x) && x.id == id) xs
      ≡ (any (λ x. f x && x.id == id) xs || any (λ x. x.id == id && g x) xs)
any_or_comm id f g [] = refl
any_or_comm id f g (x ∷ xs) = ground (arith, any_or_comm id f g xs)

-- The threads show exactly the listed comments that are top-level, or that answer a listed
-- top-level comment.
pub shown-threads :
    (id : ℕ) (comments : List Comment)
    → shown id (threads_from comments (top_level comments))
      ≡ any
          (λ x. (is_none x.parent_comment_id || answers (top_level comments) x) && x.id == id)
          comments
shown-threads id comments =
    shown-threads_from id comments (top_level comments)
    ∙ ap (λ b. b || any (λ x. x.id == id && answers (top_level comments) x) comments)
        (any-filter (λ x. is_none x.parent_comment_id) (λ t. t.id == id) comments)
    ∙ sym
        (any_or_comm id (λ x. is_none x.parent_comment_id) (answers (top_level comments)) comments)

module _ (author : Author) (db : Db) (new_id concept_id : ℕ) (content : Text) (concept : Concept)
    (parent : Comment) where
  abbrev comment_in : CommentCreate
  comment_in = record { content = content; parent_comment_id = some parent.id }

  abbrev row : Comment
  row = new_comment author new_id concept_id comment_in

  abbrev reply_db : Db
  reply_db = record db { comments = db.comments ++ row ∷ [] }

  find-fresh :
      (rows : List Comment)
      → any (λ x. x.id == new_id) rows ≡ false
      → find (is_live new_id) (rows ++ row ∷ []) ≡ some row
  find-fresh [] fresh = rw (==_refl new_id) refl
  find-fresh (x ∷ rows) fresh =
      let other : (x.id == new_id) ≡ false = ground arith in
      rw other (find-fresh rows (ground arith))

  created_reply :
      find (λ x. x.id == concept_id) db.concepts ≡ some concept
      → find (is_live parent.id) db.comments ≡ some parent
      → is_none parent.parent_comment_id ≡ true
      → any (λ x. x.id == new_id) db.comments ≡ false
      → request (create_comment author new_id concept_id comment_in) db ≡ (ok row, reply_db)
  unfolding request create_comment get_concept validate_parent validate_parent_comment find_parent
      insert_comment get_comment
  created_reply concept_row parent_row top fresh =
      rw (concept_row, parent_row, top, fresh, find-fresh db.comments fresh) refl

  -- the new row is no answer to a comment on its own concept
  no_answer :
      (listed : Comment → Bool)
      → ((x : Comment) → listed x ≡ true → (x.concept_id == concept_id) ≡ true)
      → any (λ x. x.id == parent.id && x.concept_id == concept_id) db.comments ≡ false
      → any (λ x. listed x && (is_none x.parent_comment_id && parent.id == x.id)) reply_db.comments
        ≡ false
  no_answer listed on_concept elsewhere =
      any-append _ db.comments (row ∷ [])
      ∙ ground (
        arith,
        any_weaker (λ x. x.id == parent.id && x.concept_id == concept_id)
            (λ x. listed x && (is_none x.parent_comment_id && parent.id == x.id)) db.comments
            (λ x e. ground (arith, on_concept x)) elsewhere,
      )

  abbrev listed_on : ℕ → Comment → Bool
  listed_on d x = x.concept_id == d && is_none x.deleted_at && true

  any-comments_of :
      (d : ℕ) (f : Comment → Bool)
      → any f (comments_of reply_db.comments d none)
        ≡ any (λ x. listed_on d x && f x) reply_db.comments
  any-comments_of d f =
      any-order_by (λ x y. ltb x.created_at y.created_at) f (filter (listed_on d) reply_db.comments)
      ∙ any-filter (listed_on d) f reply_db.comments

  unanswered :
      (d : ℕ)
      → any (λ x. x.id == parent.id && x.concept_id == concept_id) db.comments ≡ false
      → (listed_on d row && answers (top_level (comments_of reply_db.comments d none)) row) ≡ false
  unanswered d elsewhere = elim (Bool-cases (concept_id == d)) [
    | inl e ↦ ground (
      arith,
      any-filter (λ x. is_none x.parent_comment_id) (λ t. parent.id == t.id)
          (comments_of reply_db.comments d none),
      any-comments_of d (λ x. is_none x.parent_comment_id && parent.id == x.id),
      no_answer (listed_on d) (λ x on. ground arith) elsewhere,
    )
    | inr e ↦ rw e refl
  ]

  unseen :
      (d : ℕ)
      → any (λ x. x.id == new_id) db.comments ≡ false
      → any (λ x. x.id == parent.id && x.concept_id == concept_id) db.comments ≡ false
      → (let listed = comments_of reply_db.comments d none in
          any
            (λ x. (is_none x.parent_comment_id || answers (top_level listed) x) && x.id == new_id)
            listed
          ≡ false)
  unseen d fresh elsewhere =
      let listed = comments_of reply_db.comments d none in
      let f : Comment → Bool =
        λ x. (is_none x.parent_comment_id || answers (top_level listed) x) && x.id == new_id in
      any-comments_of d f
      ∙ any-append (λ x. listed_on d x && f x) db.comments (row ∷ [])
      ∙ ground (
        arith,
        any_weaker (λ x. x.id == new_id) (λ x. listed_on d x && f x) db.comments
            (λ x e. ground arith) fresh,
        unanswered d elsewhere,
      )

  -- A reply to a top-level comment that stands on another concept is accepted, and then no thread of
  -- any concept shows it.
  pub foreign_reply_unseen :
      find (λ x. x.id == concept_id) db.concepts ≡ some concept
      → find (is_live parent.id) db.comments ≡ some parent
      → is_none parent.parent_comment_id ≡ true
      → any (λ x. x.id == new_id) db.comments ≡ false
      → any (λ x. x.id == parent.id && x.concept_id == concept_id) db.comments ≡ false
      → (request (create_comment author new_id concept_id comment_in) db ≡ (ok row, reply_db))
        × ((d : ℕ)
            → (let listed = comments_of reply_db.comments d none in
                shown new_id (threads_from listed (top_level listed)) ≡ false))
  foreign_reply_unseen concept_row parent_row top fresh elsewhere = (
    created_reply concept_row parent_row top fresh,
    λ d. shown-threads new_id (comments_of reply_db.comments d none) ∙ unseen d fresh elsewhere,
  )
