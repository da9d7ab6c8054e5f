-- ===== src/Comments/Invariant.antt =====
-- Every operation on comments keeps the threads one level deep.
use taxonomy_builder.Common.{
  ℕ, ◌≡◌, refl, sym, ◌∙◌, ap, subst, inl, inr, Bool, true, false, not, ◌&&◌, Option, none, some,
  List, [], ◌∷◌, ◌++◌, ◌==◌, ==_iff, find, any, all, any-append, Bool-cases, arith, text, Triple,
  Triple-bind, Triple-fail, Triple-after, Triple-or_raise, Triple-raise_if,
}
use mathlib.Core.Option.{some-injective}
use taxonomy_builder.Models.Activity.{Comment}
use taxonomy_builder.Models.Session.{Db, Session, Both, request, request_keeps}
use taxonomy_builder.Comments.{
  Author, CommentCreate, concept_not_found, comment_not_found, not_comment_owner, not_top_level,
  parent_not_found, parent_is_reply, is_none, is_live, get_concept, get_comment, find_parent,
  validate_parent_comment, validate_parent, insert_comment, write_comment, new_comment,
  create_comment, deleted, delete_comment, resolved, resolve_comment, unresolved, unresolve_comment,
}
use taxonomy_builder.Comments.Rules.{
  is_head, answers_head, fits, HasUniqueIds, IsThreaded, Keeps, IsThreaded-update, only_row,
  and_left, and_right, and_both,
}

abbrev pub Threaded : Db → Type 0
Threaded db = IsThreaded db.comments

abbrev Good : Session → Type 0
Good = Both Threaded

abbrev Found : ℕ → Comment → Session → Type 0
Found id c s = Good s × (find (is_live id) s.comments ≡ some c)

get_comment-Found : (id : ℕ) → Triple Good (get_comment id) (λ c. Found id c) (λ _. Good)
unfolding get_comment
get_comment-Found id =
    Triple-or_raise Good (comment_not_found id) (λ s. find (is_live id) s.comments)

found_same :
    (id : ℕ) (rows : List Comment) (c : Comment) → find (is_live id) rows ≡ some c → c.id ≡ id
found_same id [] c h = cc
found_same id (x ∷ rows) c h = elim (Bool-cases (is_live id x)) [
  | inl e ↦
      sym (ap (λ (y : Comment). y.id) (some-injective x c (rw e at h)))
      ∙ (==_iff x.id id).0 (ground arith)
  | inr e ↦ found_same id rows c (rw e at h)
]

module _ (f : Comment → Comment) (k : Keeps f) (cond : Comment → Bool)
    (step : (rows : List Comment) (x : Comment)
      → cond x ≡ true
      → fits rows x ≡ true
      → fits rows (f x) ≡ true) where
  write_keeps :
      (b : Bool) (id : ℕ) (c : Comment)
      → cond c ≡ true
      → Triple (Found id c) (write_comment b c.id f) (λ _. Good) (λ _. Good)
  unfolding write_comment
  write_keeps false id c good = record { at = λ s (h, found). h }
  write_keeps true id c good = record {
    at = λ s ((now, back), found).
        let same_id = found_same id s.comments c found in
        let found' = subst (λ j. find (is_live j) s.comments ≡ some c) (sym same_id) found in
        (
          IsThreaded-update c.id f k s.comments cond (step s.comments)
              (only_row c.id cond s.comments c now.unique found' good) now,
          back,
        );
  }

module _ (author : Author) where
  Keeps-deleted : Keeps (deleted author)
  Keeps-deleted = record { id = λ x. refl; parent = λ x. refl }

  Keeps-resolved : Keeps (resolved author)
  Keeps-resolved = record { id = λ x. refl; parent = λ x. refl }

  Keeps-unresolved : Keeps (unresolved author)
  Keeps-unresolved = record { id = λ x. refl; parent = λ x. refl }

  delete_keeps : (id : ℕ) → Triple Good (delete_comment author id) (λ _. Good) (λ _. Good)
  unfolding delete_comment
  delete_keeps id = Triple-bind _ _ (get_comment-Found id) λ c.
      Triple-bind _ _
        (Triple-after _ (λ _ s h. h.0)
          (Triple-fail _ (λ e s h. h.0)
            (Triple-raise_if (Found id c) (not (c.user_id == author.user_id))
              (not_comment_owner id author.user_id))))
        λ _. write_keeps (deleted author) Keeps-deleted (λ x. true) (λ rows x c h. h) true id c refl

  resolve_keeps : (id : ℕ) → Triple Good (resolve_comment author id) (λ _. Good) (λ _. Good)
  unfolding resolve_comment
  resolve_keeps id = Triple-bind _ _ (get_comment-Found id) λ c.
      Triple-bind _ _
        (Triple-fail _ (λ e s h. h.0)
          (Triple-raise_if (Found id c) (not (is_none c.parent_comment_id))
            (not_top_level c.id (text "resolve"))))
        λ _. record {
          at = λ s (found, top).
              (write_keeps (resolved author) Keeps-resolved (λ x. is_none x.parent_comment_id)
                  (λ rows x c h. ground arith) (is_none c.resolved_at) id c (ground arith)).at
                s found;
        }

  unresolve_keeps : (id : ℕ) → Triple Good (unresolve_comment author id) (λ _. Good) (λ _. Good)
  unfolding unresolve_comment
  unresolve_keeps id = Triple-bind _ _ (get_comment-Found id) λ c.
      Triple-bind _ _
        (Triple-after _ (λ _ s h. h.0)
          (Triple-fail _ (λ e s h. h.0)
            (Triple-raise_if (Found id c) (not (is_none c.parent_comment_id))
              (not_top_level c.id (text "unresolve")))))
        λ _.
          write_keeps (unresolved author) Keeps-unresolved (λ x. true) (λ rows x c h. ground arith)
            (not (is_none c.resolved_at && is_none c.resolved_by)) id c refl

is_head-append :
    (rows : List Comment) (row : Comment) (p : ℕ)
    → is_head rows p ≡ true
    → is_head (rows ++ row ∷ []) p ≡ true
is_head-append rows row p h =
    any-append (λ y. y.id == p && is_none y.parent_comment_id) rows (row ∷ []) ∙ ground arith

answers_head-append :
    (rows : List Comment) (row : Comment) (o : Option ℕ)
    → answers_head rows o ≡ true
    → answers_head (rows ++ row ∷ []) o ≡ true
answers_head-append rows row none h = refl
answers_head-append rows row (some p) h = is_head-append rows row p h

fits-append :
    (rows : List Comment) (row x : Comment) → fits rows x ≡ true → fits (rows ++ row ∷ []) x ≡ true
fits-append rows row x h = ground (arith, answers_head-append rows row x.parent_comment_id)

all_fit-append :
    (heads rows : List Comment) (row : Comment)
    → all (fits heads) rows ≡ true
    → fits heads row ≡ true
    → all (fits (heads ++ row ∷ [])) (rows ++ row ∷ []) ≡ true
all_fit-append heads [] row h new = and_both _ _ (fits-append heads row row new) refl
all_fit-append heads (x ∷ rows) row h new =
    and_both _ _ (fits-append heads row x (and_left _ _ h))
      (all_fit-append heads rows row (and_right _ _ h) new)

HasUniqueIds-append :
    (rows : List Comment) (row : Comment)
    → any (λ x. x.id == row.id) rows ≡ false
    → HasUniqueIds rows
    → HasUniqueIds (rows ++ row ∷ [])
HasUniqueIds-append [] row fresh u = (refl, tt)
HasUniqueIds-append (x ∷ rows) row fresh (alone, u) = (
  any-append (λ y. y.id == x.id) rows (row ∷ []) ∙ ground arith,
  HasUniqueIds-append rows row (ground arith) u,
)

-- a parent that was accepted is a top-level comment
found_head :
    (p : ℕ) (rows : List Comment) (c : Comment)
    → find (is_live p) rows ≡ some c
    → is_none c.parent_comment_id ≡ true
    → is_head rows p ≡ true
found_head p [] c h top = cc
found_head p (x ∷ rows) c h top = elim (Bool-cases (is_live p x)) [
  | inl e ↦
      let here : is_none x.parent_comment_id ≡ true =
        ap (λ (y : Comment). is_none y.parent_comment_id) (some-injective x c (rw e at h)) ∙ top in
      ground arith
  | inr e ↦ ground (arith, found_head p rows c (rw e at h) top)
]

abbrev ParentOk : Option ℕ → Session → Type 0
ParentOk o s = Good s × (answers_head s.comments o ≡ true)

validate_parent-ParentOk :
    (o : Option ℕ) → Triple Good (validate_parent o) (λ _. ParentOk o) (λ _. Good)
unfolding validate_parent validate_parent_comment find_parent
validate_parent-ParentOk none = record { at = λ s h. (h, refl) }
validate_parent-ParentOk (some p) =
    Triple-bind _ _ (Triple-or_raise Good (parent_not_found p) (λ s. find (is_live p) s.comments))
      λ c.
        Triple-after _
          (λ _ s ((h, found), top). (h, found_head p s.comments c found (ground arith)))
          (Triple-fail _ (λ e s h. h.0)
            (Triple-raise_if (Found p c) (not (is_none c.parent_comment_id)) parent_is_reply))

module _ (author : Author) where
  insert_keeps :
      (new_id concept_id : ℕ) (comment_in : CommentCreate)
      → Triple
          (ParentOk comment_in.parent_comment_id)
          (insert_comment (new_comment author new_id concept_id comment_in))
          (λ _. Good)
          (λ _. Good)
  unfolding insert_comment
  insert_keeps new_id concept_id comment_in = record {
    at = λ s ((now, back), parent_ok).
        let row = new_comment author new_id concept_id comment_in in
        elim (Bool-cases (any (λ x. x.id == new_id) s.comments)) [
          | inl e ↦ rw e (now, back)
          | inr e ↦ rw e (
            record {
              unique = HasUniqueIds-append s.comments row e now.unique;
              all_fit =
                  all_fit-append s.comments s.comments row now.all_fit (ground (arith, parent_ok));
            },
            back,
          )
        ];
  }

  create_keeps :
      (new_id concept_id : ℕ) (comment_in : CommentCreate)
      → Triple Good (create_comment author new_id concept_id comment_in) (λ _. Good) (λ _. Good)
  unfolding create_comment get_concept
  create_keeps new_id concept_id comment_in =
      Triple-bind _ _
        (Triple-after _ (λ _ s h. h.0)
          (Triple-or_raise Good (concept_not_found concept_id)
            (λ s. find (λ x. x.id == concept_id) s.concepts)))
        λ _. Triple-bind _ _ (validate_parent-ParentOk comment_in.parent_comment_id) λ _.
          Triple-bind _ _ (insert_keeps new_id concept_id comment_in)
            λ _. Triple-after _ (λ c s h. h.0) (get_comment-Found new_id)

  -- Creating, deleting, resolving and unresolving comments, whatever their outcome, keep ids unique,
  -- keep every reply an answer to a top-level comment, and keep replies unresolved.
  pub comments-Threaded :
      (db : Db) (id concept_id : ℕ) (comment_in : CommentCreate)
      → Threaded db
      → Threaded (request (create_comment author id concept_id comment_in) db).1
        × Threaded (request (delete_comment author id) db).1
        × Threaded (request (resolve_comment author id) db).1
        × Threaded (request (unresolve_comment author id) db).1
  comments-Threaded db id concept_id comment_in h = (
    request_keeps Threaded _ (create_keeps id concept_id comment_in) db h,
    request_keeps Threaded _ (delete_keeps author id) db h,
    request_keeps Threaded _ (resolve_keeps author id) db h,
    request_keeps Threaded _ (unresolve_keeps author id) db h,
  )
