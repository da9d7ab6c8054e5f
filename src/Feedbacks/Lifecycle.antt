-- ===== src/Feedbacks/Lifecycle.antt =====
-- How the operations on one piece of feedback follow each other.
use taxonomy_builder.Common.{
  ℕ, ◌≡◌, ◌≢◌, refl, sym, ◌∙◌, ap, subst, inl, inr, true, Option, none, some, List, Text, text,
  find, Result, ok, raise, Bool-cases, Option-cases, arith, is_empty,
}
use taxonomy_builder.Models.Activity.{FeedbackStatus, Feedback}
use taxonomy_builder.Models.Session.{Db, request}
use taxonomy_builder.Feedbacks.{
  Reader, FeedbackError, feedback_not_found, status_conflict, is_none, is_live, is_own, is_closed,
  get, get_own, replace_feedback, respond_if, close_with, delete, respond, triage,
}
use taxonomy_builder.Feedbacks.Rows.{
  find_passes, find-replace, find-replace_deleted, find-replace_other,
}

-- an answer changes neither the id, nor the status, nor the deletion
record Kept (row fb : Feedback) : Type 0 where
  id : row.id ≡ fb.id
  status : row.status ≡ fb.status
  deleted : row.deleted_at ≡ fb.deleted_at

respond_if-Kept :
    (reader : Reader) (content : Option Text) (fb : Feedback)
    → Kept (respond_if reader content fb) fb
respond_if-Kept reader none fb = record { id = refl; status = refl; deleted = refl }
respond_if-Kept reader (some t) fb = elim (Bool-cases (is_empty t)) [
  | inl e ↦ rw e (record { id = refl; status = refl; deleted = refl })
  | inr e ↦ rw e (record { id = refl; status = refl; deleted = refl })
]

-- what `get` returns
abbrev found_or : ℕ → Option Feedback → Result FeedbackError Feedback
found_or id none = raise (feedback_not_found id)
found_or id (some fb) = ok fb

get_result :
    (id : ℕ) (db : Db) → (request (get id) db).0 ≡ found_or id (find (is_live id) db.feedback)
unfolding request get
get_result id db = elim (Option-cases (find (is_live id) db.feedback)) [
  | inl e ↦ rw e refl
  | inr (fb, e) ↦ rw e refl
]

module _ (reader : Reader) (db : Db) where
  triaged_found :
      (fb : Feedback) (status : FeedbackStatus) (content : Option Text)
      → find (is_live fb.id) db.feedback ≡ some fb
      → find
          (is_live fb.id)
          (replace_feedback (respond_if reader content (close_with reader status fb)) db.feedback)
        ≡ some (respond_if reader content (close_with reader status fb))
  triaged_found fb status content found =
      let row = respond_if reader content (close_with reader status fb) in
      let kept = respond_if-Kept reader content (close_with reader status fb) in
      let live : is_none fb.deleted_at ≡ true =
        ground (arith, find_passes (is_live fb.id) db.feedback fb found) in
      subst (λ k. find (is_live k) (replace_feedback row db.feedback) ≡ some row) kept.id
        (find-replace row fb db.feedback
          (subst (λ k. find (is_live k) db.feedback ≡ some fb) (sym kept.id) found)
          (ap is_none kept.deleted ∙ live))

  triage-row :
      (fb : Feedback) (status : FeedbackStatus) (content : Option Text)
      → find (is_live fb.id) db.feedback ≡ some fb
      → request (triage reader fb.id status content) db ≡ (
          let row = respond_if reader content (close_with reader status fb) in
          (ok row, record db { feedback = replace_feedback row db.feedback }))
  unfolding request triage get
  triage-row fb status content found = rw found refl

  delete-row :
      (fb : Feedback)
      → find (is_own reader fb.id) db.feedback ≡ some fb
      → request (delete reader fb.id) db ≡ (
        ok tt,
        record db {
          feedback = replace_feedback (record fb { deleted_at = some reader.now }) db.feedback;
        },
      )
  unfolding request delete get_own
  delete-row fb found = rw found refl

  -- a refusal, for a row that is found under a known id and status
  respond_refused :
      (other : Reader) (id : ℕ) (status : FeedbackStatus) (row : Feedback) (rows : List Feedback)
      (answer : Text)
      → find (is_live id) rows ≡ some row
      → row.status ≡ status
      → is_closed status ≡ true
      → request (respond other id answer) (record db { feedback = rows })
        ≡ (raise (status_conflict id status (text "respond to")), record db { feedback = rows })
  unfolding request respond get
  respond_refused other id status row rows answer found same closed = rw (found, same, closed) refl

  -- After a triage that goes through, nobody can answer the feedback: an answer is refused with the
  -- new status, and changes nothing.
  pub respond_after_triage :
      (other : Reader) (fb : Feedback) (status : FeedbackStatus) (content : Option Text)
      (answer : Text)
      → find (is_live fb.id) db.feedback ≡ some fb
      → is_closed status ≡ true
      → request (respond other fb.id answer) (request (triage reader fb.id status content) db).1 ≡ (
        raise (status_conflict fb.id status (text "respond to")),
        (request (triage reader fb.id status content) db).1,
      )
  respond_after_triage other fb status content answer found closed =
      let row = respond_if reader content (close_with reader status fb) in
      let kept = respond_if-Kept reader content (close_with reader status fb) in
      rw (triage-row fb status content found) (
        respond_refused other fb.id status row (replace_feedback row db.feedback) answer
          (triaged_found fb status content found) kept.status closed)

  -- A reader who deletes feedback of their own succeeds; it is not found any more, and every other
  -- piece of feedback is found as before.
  pub delete_hides :
      (fb : Feedback)
      → find (is_own reader fb.id) db.feedback ≡ some fb
      → ((request (delete reader fb.id) db).0 ≡ ok tt)
        × ((request (get fb.id) (request (delete reader fb.id) db).1).0
            ≡ raise (feedback_not_found fb.id))
        × ((j : ℕ)
            → fb.id ≢ j
            → (request (get j) (request (delete reader fb.id) db).1).0 ≡ (request (get j) db).0)
  delete_hides fb found =
      let row = record fb { deleted_at = some reader.now } in
      let state =
        ap (λ (r : Result FeedbackError (Unit {0}) × Db). r.1.feedback) (delete-row fb found) in
      (
        ap (λ r. r.0) (delete-row fb found),
        get_result fb.id _
            ∙ ap (λ rows. found_or fb.id (find (is_live fb.id) rows)) state
            ∙ ap (found_or fb.id) (find-replace_deleted row db.feedback refl),
        λ j ne.
            get_result j _
            ∙ ap (λ rows. found_or j (find (is_live j) rows)) state
            ∙ ap (found_or j) (find-replace_other j row db.feedback ne)
            ∙ sym (get_result j db),
      )
