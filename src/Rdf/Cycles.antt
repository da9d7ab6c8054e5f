-- ===== src/Rdf/Cycles.antt =====
-- `detect_superclass_cycles`: a depth-first search over the superclasses of a file's classes.
pub mod Paths
pub mod Search
pub mod Visit
pub mod Decides
use taxonomy_builder.Common.{ℕ, zero, suc, Option, none, some, List, [], ◌∷◌, ◌++◌, Text, length}
use taxonomy_builder.Rdf.Classes.{ClassMetadata}
use taxonomy_builder.Common.Dict.{lookup, put, keys}

pub data Status : Type 0 where
  unvisited : Status
  in_progress : Status
  complete : Status

pub record Progress : Type 0 where
  pub status : List (Text × Status)
  pub cycle_edges : List (Text × Text)

abbrev pub Superclasses : Type 0
Superclasses = List (Text × List Text)

abbrev pub or_empty : Option (List Text) → List Text
or_empty none = []
or_empty (some uris) = uris

-- `superclasses_by_uri.get(node, [])`
abbrev pub parents_of : Superclasses → Text → List Text
parents_of superclasses_by_uri node = or_empty (lookup node superclasses_by_uri)

abbrev pub mark : Text → Status → Progress → Progress
mark node s st = record st { status = put node s st.status }

-- the body of the loop over the parents; `visit` is the recursive call
abbrev pub look_at :
    (Text → Progress → Option Progress) → Text → Text → Progress → Option Status → Option Progress
look_at visit node parent st none = some st
look_at visit node parent st (some in_progress) =
    some (record st { cycle_edges = st.cycle_edges ++ (node, parent) ∷ [] })
look_at visit node parent st (some unvisited) = visit parent st
look_at visit node parent st (some complete) = some st

abbrev pub and_then : Option Progress → (Progress → Option Progress) → Option Progress
and_then none k = none
and_then (some st) k = k st

abbrev pub visit_parents :
    (Text → Progress → Option Progress) → Text → List Text → Progress → Option Progress
visit_parents visit node [] st = some st
visit_parents visit node (parent ∷ parents) st =
    and_then (look_at visit node parent st (lookup parent st.status))
      (visit_parents visit node parents)

-- `visit`, where `none` means that the fuel ran out
unfoldable pub visit : Superclasses → ℕ → Text → Progress → Option Progress
visit superclasses_by_uri zero node st = none
visit superclasses_by_uri (suc fuel) node st =
    and_then
      (visit_parents (visit superclasses_by_uri fuel) node (parents_of superclasses_by_uri node)
        (mark node in_progress st))
      (λ st'. some (mark node complete st'))

abbrev pub start_at :
    (Text → Progress → Option Progress) → Text → Progress → Option Status → Option Progress
start_at visit uri st (some unvisited) = visit uri st
start_at visit uri st _ = some st

abbrev pub visit_all : (Text → Progress → Option Progress) → List Text → Progress → Option Progress
visit_all visit [] st = some st
visit_all visit (uri ∷ uris) st =
    and_then (start_at visit uri st (lookup uri st.status)) (visit_all visit uris)

abbrev pub all_unvisited : List Text → List (Text × Status)
all_unvisited [] = []
all_unvisited (uri ∷ uris) = (uri, unvisited) ∷ all_unvisited uris

abbrev pub edges_of : Option Progress → Option (List (Text × Text))
edges_of none = none
edges_of (some st) = some st.cycle_edges

abbrev add_classes : Superclasses → List ClassMetadata → Superclasses
add_classes m [] = m
add_classes m (cm ∷ rest) = add_classes (put cm.uri cm.superclass_uris m) rest

abbrev pub by_uri : List ClassMetadata → Superclasses
by_uri classes_metadata = add_classes [] classes_metadata

unfoldable pub search_from : Superclasses → Option (List (Text × Text))
unfolding visit
search_from m = edges_of (
    visit_all (visit m (length (keys m))) (keys m)
      (record { status = all_unvisited (keys m); cycle_edges = [] }))

-- one round of fuel for each class: a class is visited once
unfoldable pub detect_superclass_cycles : List ClassMetadata → Option (List (Text × Text))
unfolding search_from
detect_superclass_cycles classes_metadata = search_from (by_uri classes_metadata)
