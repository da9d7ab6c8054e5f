-- ===== src/Concepts/Tree/Ends.antt =====
-- `get_tree` of a scheme ends, with all of its concepts.
use taxonomy_builder.Common.{
  ℕ, ◌≡◌, refl, ◌∙◌, true, some, List, [], ◌∷◌, ◌==◌, ==_iff, find, filter, all, ok, arith,
}
use taxonomy_builder.Hierarchy.Acyclic.{Acyclic}
use taxonomy_builder.Models.Session.{Db, request}
use taxonomy_builder.Models.Vocabulary.{Concept, ConceptScheme}
use taxonomy_builder.Concepts.{get_scheme}
use taxonomy_builder.Concepts.Tree.{Forest, in_map, concepts_in, get_tree}
use taxonomy_builder.Concepts.Tree.Built.{any-by_label, build_tree-some}
use taxonomy_builder.Concepts.Tree.Complete.{all_shown}
use taxonomy_builder.Concepts.Tree.Forests.{shows}

shows_each :
    (ts : Forest) (rows : List Concept)
    → ((k : ℕ) → in_map rows k ≡ true → shows k ts ≡ true)
    → all (λ c. shows c.id ts) rows ≡ true
shows_each ts [] h = refl
shows_each ts (c ∷ rows) h = ground (
  arith,
  h c.id (rw ((==_iff c.id c.id).1 refl) refl),
  shows_each ts rows (λ k m. h k (ground arith)),
)

-- Where no concept is below itself, a request for the tree of a scheme that is there ends and changes
-- nothing, and every concept of the scheme has a node in the tree.
pub get_tree_lem :
    (db : Db) (scheme_id : ℕ) (scheme : ConceptScheme)
    → find (λ x. x.id == scheme_id) db.schemes ≡ some scheme
    → Acyclic db.broader
    → (ts : Forest) × (request (get_tree scheme_id) db ≡ (ok (some ts), db))
      × (all (λ c. shows c.id ts) (filter (λ c. c.scheme_id == scheme_id) db.concepts) ≡ true)
unfolding request get_tree get_scheme
get_tree_lem db scheme_id scheme found acyclic =
    let concepts = concepts_in db scheme_id in
    let (ts, built) = build_tree-some scheme concepts db.broader acyclic in
    (
      ts,
      rw found (rw built refl),
      shows_each ts (filter (λ c. c.scheme_id == scheme_id) db.concepts) (λ k m.
          all_shown scheme concepts db.broader ts acyclic built k (
            any-by_label (λ c. c.id == k) (filter (λ c. c.scheme_id == scheme_id) db.concepts)
            ∙ m)),
    )
