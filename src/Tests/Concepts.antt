-- ===== src/Tests/Concepts.antt =====
-- The theorems about concepts at the small project.
use taxonomy_builder.Common.{
  ℕ, Option, ◌≡◌, refl, ◌↔◌, Bool, true, false, text, none, some, [], ◌∷◌, ◌++◌, ok, inr, arith,
  all, filter, ◌==◌,
}
use taxonomy_builder.Models.Activity.{Comment}
use taxonomy_builder.Models.Session.{Db, Session, request}
use taxonomy_builder.Hierarchy.{is_descendant, Below, child, deeper}
use taxonomy_builder.Hierarchy.Search.{is_descendant_decides, not-Below_of_missed}
use taxonomy_builder.Hierarchy.Acyclic.{Acyclic, Acyclic-added}
use taxonomy_builder.Concepts.Tree.{Forest, get_tree}
use taxonomy_builder.Concepts.Tree.Forests.{shows}
use taxonomy_builder.Concepts.Tree.Ends.{get_tree_lem}
use taxonomy_builder.Concepts.Broader.{add_broader}
use taxonomy_builder.Concepts.Broader.Branches.{after_add, after_remove, Reads}
use taxonomy_builder.Concepts.Broader.Cycles.{add_broader_closes_cycle}
use taxonomy_builder.Concepts.Related.{add_related, remove_related}
use taxonomy_builder.Concepts.Related.Normal.{Normal, related-Normal}
use taxonomy_builder.Concepts.Related.Effects.{Pair}
use taxonomy_builder.Concepts.Move.{move_concept}
use taxonomy_builder.Concepts.Move.Hierarchy.{move-Acyclic}
use taxonomy_builder.Concepts.Move.Effects.{Moves, move_replaces, move_undone}
use taxonomy_builder.Concepts.Edit.{create_concept, update_concept, ConceptCreate, ConceptUpdate}
use taxonomy_builder.Concepts.Edit.Distinct.{Distinct, edit-Distinct}
use taxonomy_builder.Concepts.Delete.{delete_concept}
use taxonomy_builder.Concepts.Delete.Effects.{deletion_events, delete_concept_ok}
use taxonomy_builder.Concepts.Delete.Events.{known}
use taxonomy_builder.Concepts.Delete.Closed.{IsClosed, delete-IsClosed}
use taxonomy_builder.Comments.{new_comment}
use taxonomy_builder.Tests.{actor, scheme, place, school, nursery, under, db}

is_descendant_decides_example :
    (b : Bool) × (is_descendant db.broader 10 12 ≡ some b) × ((b ≡ true) ↔ Below db.broader 10 12)
is_descendant_decides_example = is_descendant_decides db.broader 10 12

school_below : Acyclic (under 11 10 ∷ [])
unfolding is_descendant
school_below =
    Acyclic-added [] 11 10 (λ x b. not-Below_of_missed [] x x refl b) (ground arith)
      (not-Below_of_missed [] 11 10 refl)

db-Acyclic : Acyclic db.broader
unfolding is_descendant
db-Acyclic =
    Acyclic-added (under 11 10 ∷ []) 12 11 school_below (ground arith)
      (not-Below_of_missed _ 12 11 refl)

move-Acyclic_example : Acyclic (request (move_concept actor 12 (some 10) (some 11)) db).1.broader
move-Acyclic_example = move-Acyclic actor 12 (some 10) (some 11) db db-Acyclic

reads : Reads (record { tables = db; committed = db }) 10 12 place nursery scheme
reads = record { concept_row = refl; broader_row = refl; scheme_row = refl }

add_broader_closes_cycle_example :
    ((request (add_broader actor 10 12) db).0 ≡ ok tt)
    × (¬ Acyclic (request (add_broader actor 10 12) db).1.broader)
unfolding is_descendant
add_broader_closes_cycle_example =
    add_broader_closes_cycle actor db 10 12 place nursery scheme reads refl
      (inr (deeper {p = 11} (child refl) refl))

moves : Moves db nursery school place scheme
unfolding is_descendant
moves = record {
  concept_row = refl;
  old_row = refl;
  new_row = refl;
  scheme_row = refl;
  apart = refl;
  differ = ground arith;
  clear = refl;
  had_old = refl;
}

abbrev start : Session
start = record { tables = db; committed = db }

move_replaces_example : request (move_concept actor 12 (some 10) (some 11)) db ≡ (
  ok nursery,
  (after_add actor
      (after_remove actor start 12 11 nursery school scheme)
      12
      10
      nursery
      place
      scheme).tables,
)
move_replaces_example = move_replaces actor db nursery school place scheme moves refl

-- the nursery under both
abbrev twice : Db
twice = record db { broader = under 11 10 ∷ under 12 11 ∷ under 12 10 ∷ [] }

twice-Moves : Moves twice nursery school place scheme
unfolding is_descendant
twice-Moves = record {
  concept_row = refl;
  old_row = refl;
  new_row = refl;
  scheme_row = refl;
  apart = refl;
  differ = ground arith;
  clear = refl;
  had_old = refl;
}

move_undone_example :
    request (move_concept actor 12 (some 10) (some 11)) twice ≡ (ok nursery, twice)
move_undone_example = move_undone actor twice nursery school place scheme twice-Moves refl

db-Normal : Normal db.related
db-Normal = (omega arith, refl, tt)

related-Normal_example :
    Normal (request (add_related actor 12 11) db).1.related
    × Normal (request (remove_related actor 12 11) db).1.related
related-Normal_example = related-Normal actor 12 11 db db-Normal

school-nursery : Pair db 12 11 nursery school scheme
school-nursery = record {
  concept_row = refl;
  other_row = refl;
  apart = refl;
  one_scheme = refl;
  scheme_row = refl;
}

nursery-place : Pair db 12 10 nursery place scheme
nursery-place = record {
  concept_row = refl;
  other_row = refl;
  apart = refl;
  one_scheme = refl;
  scheme_row = refl;
}

abbrev college : ConceptCreate
college = record {
  pref_label = text "College";
  definition = none;
  scope_note = none;
  alt_labels = [];
}

abbrev relabel : ConceptUpdate
relabel = record {
  pref_label = some (text "Kindergarten");
  definition = none;
  scope_note = none;
  alt_labels = none;
}

edit-Distinct_example :
    Distinct (request (create_concept actor 13 1 college (text "EV000013")) db).1.concepts
    × Distinct (request (update_concept actor 12 relabel) db).1.concepts
edit-Distinct_example =
    edit-Distinct actor db 13 1 12 (text "EV000013") college relabel (refl, (refl, (refl, tt)))

abbrev comment : ℕ → ℕ → Option ℕ → Comment
comment id concept_id parent =
    new_comment (record { user_id = 5; now = 100 }) id concept_id
      (record { content = text "Why?"; parent_comment_id = parent })

-- two comments and a reply: the first and its reply go with the nursery
abbrev commented : Db
commented = record db {
  comments = comment 80 12 none ∷ comment 81 12 (some 80) ∷ comment 82 10 none ∷ [];
}

delete_concept_ok_example : request (delete_concept actor 12) commented ≡ (
  ok tt,
  record commented {
    concepts = place ∷ school ∷ [];
    broader = under 11 10 ∷ [];
    related = [];
    comments = comment 82 10 none ∷ [];
    events = commented.events ++ deletion_events actor commented nursery scheme;
  },
)
delete_concept_ok_example = delete_concept_ok actor commented nursery scheme refl refl refl refl

commented-IsClosed : IsClosed commented
commented-IsClosed = record { broader = refl; related = refl; comments = refl; parents = refl }

delete-IsClosed_example :
    IsClosed (request (delete_concept actor 12) commented).1
    × (known (request (delete_concept actor 12) commented).1.concepts 12 ≡ false)
delete-IsClosed_example =
    delete-IsClosed actor commented nursery scheme refl refl commented-IsClosed

get_tree_lem_example :
    (ts : Forest) × (request (get_tree 1) db ≡ (ok (some ts), db))
    × (all (λ c. shows c.id ts) (filter (λ c. c.scheme_id == 1) db.concepts) ≡ true)
get_tree_lem_example = get_tree_lem db 1 scheme refl db-Acyclic

-- the concepts of a cycle under no root are not in the tree
abbrev no_root : Db
no_root = record db { broader = under 11 10 ∷ under 10 11 ∷ [] }

cycle_left_out :
    (ts : Forest) × ((request (get_tree 1) no_root).0 ≡ ok (some ts))
    × (shows 10 ts ≡ false)
    × (shows 11 ts ≡ false)
    × (shows 12 ts ≡ true)
unfolding request get_tree shows
cycle_left_out = (_, refl, refl, refl, refl)

-- down a cycle under a root, the recursion uses up its fuel
cycle_followed :
    (request (get_tree 1) (record db { broader = under 11 10 ∷ under 12 11 ∷ under 11 12 ∷ [] })).0
    ≡ ok none
unfolding request get_tree
cycle_followed = refl
