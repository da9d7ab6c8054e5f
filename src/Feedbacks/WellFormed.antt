-- ===== src/Feedbacks/WellFormed.antt =====
-- The columns of a feedback row that belong together.
use taxonomy_builder.Common.{
  ℕ, ◌≡◌, refl, inl, inr, Bool, true, false, not, ◌&&◌, Option, none, some, List, [], ◌∷◌, ◌++◌,
  Text, text, text_eq, ◌==◌, find, all, Bool-cases, arith, Triple, Triple-bind, Triple-fail,
  Triple-after, Triple-or_raise, Triple-raise_if, is_empty, pure,
}
use taxonomy_builder.Models.Activity.{
  FeedbackStatus, opened, responded, resolved, declined, Feedback,
}
use taxonomy_builder.Models.Session.{Db, Session, Both, request, request_keeps}
use taxonomy_builder.Feedbacks.{
  Reader, FeedbackCreate, feedback_not_found, version_not_found, entity_not_in_snapshot,
  status_conflict, is_none, is_live, is_own, get_own, is_closed, get, get_published_version,
  find_entity_label, new_feedback, write_feedback, insert_feedback, set_response, respond_if,
  close_with, create, delete, respond, triage, resolve, decline,
}
use taxonomy_builder.Feedbacks.Rows.{all-find, all-replace}

abbrev same : Bool → Bool → Bool
same true b = b
same false b = not b

-- what each status asks for
abbrev fits_status : FeedbackStatus → Bool → Bool → Bool
fits_status opened unanswered untouched = unanswered && untouched
fits_status responded unanswered untouched = not unanswered && untouched
fits_status resolved unanswered untouched = not untouched
fits_status declined unanswered untouched = not untouched

-- A response has its author, name and time, and a status change has its author and time; a response
-- is there when the status says so, and a status change when the feedback is closed.
abbrev pub is_well_formed : Feedback → Bool
is_well_formed fb =
    same (is_none fb.response_content) (is_none fb.responded_by)
    && same (is_none fb.response_content) (is_none fb.responded_by_name)
    && same (is_none fb.response_content) (is_none fb.responded_at)
    && same (is_none fb.status_changed_at) (is_none fb.status_changed_by)
    && fits_status fb.status (is_none fb.response_content) (is_none fb.status_changed_at)

abbrev pub AllWellFormed : Db → Type 0
AllWellFormed db = all is_well_formed db.feedback ≡ true

abbrev Good : Session → Type 0
Good = Both AllWellFormed

write_feedback-Good :
    (row : Feedback)
    → is_well_formed row ≡ true
    → Triple Good (write_feedback row) (λ _. Good) (λ _. Good)
unfolding write_feedback
write_feedback-Good row h = record {
  at = λ s (now, back). (all-replace is_well_formed row s.feedback h now, back);
}

all-append :
    (p : Feedback → Bool) (rows : List Feedback) (row : Feedback)
    → all p rows ≡ true
    → p row ≡ true
    → all p (rows ++ row ∷ []) ≡ true
all-append p [] row a h = ground arith
all-append p (x ∷ rows) row a h = ground (arith, all-append p rows row)

-- a row that was read is well formed
Read : Feedback → Session → Type 0
Read fb s = Good s × (is_well_formed fb ≡ true)

get-Read : (id : ℕ) → Triple Good (get id) (λ fb. Read fb) (λ _. Good)
unfolding get Read
get-Read id =
    Triple-after _
      (λ fb s (good, found).
        (good, all-find is_well_formed (is_live id) s.feedback fb good.0 found))
      (Triple-or_raise Good (feedback_not_found id) (λ s. find (is_live id) s.feedback))

untouched_open :
    (status : FeedbackStatus) (unanswered untouched : Bool)
    → is_closed status ≡ false
    → fits_status status unanswered untouched ≡ true
    → untouched ≡ true
untouched_open opened a b h f = ground arith
untouched_open responded a b h f = ground arith
untouched_open resolved a b h f = cc
untouched_open declined a b h f = cc

module _ (reader : Reader) where
  answered_row :
      (content : Text) (fb : Feedback)
      → is_well_formed fb ≡ true
      → is_closed fb.status ≡ false
      → is_well_formed (record (set_response reader content fb) { status = responded }) ≡ true
  answered_row content fb h open_status = ground (
    arith,
    untouched_open fb.status (is_none fb.response_content) (is_none fb.status_changed_at)
        open_status,
  )

  triaged_row :
      (content : Option Text) (status : FeedbackStatus) (fb : Feedback)
      → is_closed status ≡ true
      → is_well_formed fb ≡ true
      → is_well_formed (respond_if reader content (close_with reader status fb)) ≡ true
  triaged_row none opened fb c h = cc
  triaged_row none responded fb c h = cc
  triaged_row none resolved fb c h = ground arith
  triaged_row none declined fb c h = ground arith
  triaged_row (some t) opened fb c h = cc
  triaged_row (some t) responded fb c h = cc
  triaged_row (some t) resolved fb c h = elim (Bool-cases (is_empty t)) [
    | inl e ↦ rw e (ground arith)
    | inr e ↦ rw e (ground arith)
  ]
  triaged_row (some t) declined fb c h = elim (Bool-cases (is_empty t)) [
    | inl e ↦ rw e (ground arith)
    | inr e ↦ rw e (ground arith)
  ]

  respond_keeps :
      (id : ℕ) (content : Text) → Triple Good (respond reader id content) (λ _. Good) (λ _. Good)
  unfolding respond Read
  respond_keeps id content = Triple-bind _ _ (get-Read id) λ fb.
      Triple-bind _ _
        (Triple-fail _ (λ e s h. h.0)
          (Triple-raise_if (Read fb) (is_closed fb.status)
            (status_conflict id fb.status (text "respond to"))))
        λ _. record {
          at = λ s ((good, fine), open_status).
              (write_feedback-Good (record (set_response reader content fb) { status = responded })
                  (answered_row content fb fine open_status)).at
                s good;
        }

  triage_keeps :
      (id : ℕ) (status : FeedbackStatus) (content : Option Text)
      → is_closed status ≡ true
      → Triple Good (triage reader id status content) (λ _. Good) (λ _. Good)
  unfolding triage Read
  triage_keeps id status content closed = Triple-bind _ _ (get-Read id) λ fb. record {
    at = λ s (good, fine).
        (write_feedback-Good (respond_if reader content (close_with reader status fb))
            (triaged_row content status fb closed fine)).at
          s good;
  }

  get_own-Read : (id : ℕ) → Triple Good (get_own reader id) (λ fb. Read fb) (λ _. Good)
  unfolding get_own Read
  get_own-Read id =
      Triple-after _
        (λ fb s (good, found).
          (good, all-find is_well_formed (is_own reader id) s.feedback fb good.0 found))
        (Triple-or_raise Good (feedback_not_found id) (λ s. find (is_own reader id) s.feedback))

  deleted_row_keeps :
      (fb : Feedback)
      → Triple
          (Read fb)
          (write_feedback (record fb { deleted_at = some reader.now }))
          (λ _. Good)
          (λ _. Good)
  unfolding Read
  deleted_row_keeps fb = record {
    at = λ s (good, fine).
        (write_feedback-Good (record fb { deleted_at = some reader.now }) fine).at s good;
  }

  delete_keeps : (id : ℕ) → Triple Good (delete reader id) (λ _. Good) (λ _. Good)
  unfolding delete Read
  delete_keeps id = Triple-bind _ _ (get_own-Read id) λ fb.
      Triple-bind (write_feedback (record fb { deleted_at = some reader.now })) (λ _. pure tt)
        (deleted_row_keeps fb) λ _. record { at = λ s h. h }

  insert_feedback-Good :
      (row : Feedback)
      → is_well_formed row ≡ true
      → Triple Good (insert_feedback row) (λ _. Good) (λ _. Good)
  unfolding insert_feedback
  insert_feedback-Good row h = record {
    at = λ s (now, back). (all-append is_well_formed s.feedback row now h, back);
  }

  create_keeps :
      (new_id project_id : ℕ) (feedback_in : FeedbackCreate)
      → Triple Good (create reader new_id project_id feedback_in) (λ _. Good) (λ _. Good)
  unfolding create get_published_version
  create_keeps new_id project_id feedback_in =
      Triple-bind _ _
        (Triple-after _ (λ pv s h. h.0)
          (Triple-or_raise Good (version_not_found project_id feedback_in.snapshot_version) (λ s.
            find (λ v. v.project_id == project_id && text_eq v.version feedback_in.snapshot_version)
              s.versions)))
        λ pv.
          Triple-bind _ _
            (Triple-after _ (λ l s h. h.0)
              (Triple-or_raise Good
                (entity_not_in_snapshot feedback_in.entity_id feedback_in.entity_type)
                (λ _. find_entity_label pv.snapshot feedback_in.entity_type feedback_in.entity_id)))
            λ label.
              insert_feedback-Good (new_feedback reader new_id project_id feedback_in label) refl

  -- Creating, answering, resolving, declining and deleting feedback, whatever their outcome, keep
  -- the columns of every row consistent with each other and with its status.
  pub feedback-AllWellFormed :
      (db : Db) (id project_id : ℕ) (feedback_in : FeedbackCreate) (answer : Text)
      (content : Option Text)
      → AllWellFormed db
      → AllWellFormed (request (create reader id project_id feedback_in) db).1
        × AllWellFormed (request (respond reader id answer) db).1
        × AllWellFormed (request (resolve reader id content) db).1
        × AllWellFormed (request (decline reader id content) db).1
        × AllWellFormed (request (delete reader id) db).1
  feedback-AllWellFormed db id project_id feedback_in answer content h = (
    request_keeps AllWellFormed _ (create_keeps id project_id feedback_in) db h,
    request_keeps AllWellFormed _ (respond_keeps id answer) db h,
    request_keeps AllWellFormed _ (triage_keeps id resolved content refl) db h,
    request_keeps AllWellFormed _ (triage_keeps id declined content refl) db h,
    request_keeps AllWellFormed _ (delete_keeps id) db h,
  )
