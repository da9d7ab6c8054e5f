-- ===== src/Imports/Edges.antt =====
-- An import looks up the edges that are there, so that the key of class_superclass holds.
use taxonomy_builder.Common.{
  ℕ, ◌≡◌, refl, sym, ◌∙◌, ap, inl, inr, Bool, true, false, not, ◌&&◌, ◌||◌, Option, none, some,
  List, [], ◌∷◌, ◌++◌, Text, contains, ◌==◌, ==_iff, ==_refl, any, any-append, filter, Bool-cases,
  List-cases, arith, Triple, Triple-bind, Triple-pure, Ensures-always, raise_if,
}
use mathlib.Core.List.{append_assoc, append-nil}
use taxonomy_builder.Common.Dict.{lookup}
use taxonomy_builder.Models.Vocabulary.{ClassSuperclass, OntologyClass}
use taxonomy_builder.Models.Session.{Session}
use taxonomy_builder.Rdf.Classes.{ClassMetadata}
use taxonomy_builder.Classes.{same_identifier, same_uri}
use taxonomy_builder.Imports.{
  Service, Environment, integrity_error, collect, put_all, check_project,
}
use taxonomy_builder.Imports.Classes.{
  file_class_ids, has_superclasses, has_edge, add_edge, wire_superclass, wire_superclasses,
  wire_class, wire, Wiring, cons_id, classes_to_create, create_class, insert_class, class_row,
  log_class, wire_classes, import_classes,
}

-- no two rows have the same key
abbrev pub are_keys : List ClassSuperclass → Bool
are_keys [] = true
are_keys (e ∷ edges) = not (has_edge edges e) && are_keys edges

has_edge-add :
    (edges : List ClassSuperclass) (e x : ClassSuperclass)
    → has_edge (edges ++ e ∷ []) x
      ≡ (has_edge edges x || e.class_id == x.class_id && e.superclass_id == x.superclass_id)
has_edge-add [] e x = ground arith
has_edge-add (r ∷ edges) e x = ground (arith, has_edge-add edges e x)

are_keys-add :
    (edges : List ClassSuperclass) (e : ClassSuperclass)
    → are_keys edges ≡ true
    → has_edge edges e ≡ false
    → are_keys (edges ++ e ∷ []) ≡ true
are_keys-add [] e keys new = refl
are_keys-add (r ∷ edges) e keys new = ground (arith, has_edge-add edges e r, are_keys-add edges e)

-- the edges of the classes that are looked at are all that may be in the way
has_edge-filter :
    (ids : List ℕ) (edges : List ClassSuperclass) (e : ClassSuperclass)
    → contains ids e.class_id ≡ true
    → has_edge (filter (λ r. contains ids r.class_id) edges) e ≡ has_edge edges e
has_edge-filter ids [] e there = refl
has_edge-filter ids (r ∷ edges) e there =
    let rest = has_edge-filter ids edges e there in
    elim (Bool-cases (r.class_id == e.class_id)) [
      | inl same ↦
          let kept : contains ids r.class_id ≡ true =
            ap (contains ids) ((==_iff r.class_id e.class_id).0 same) ∙ there in
          rw (kept, same) (ap (λ b. r.superclass_id == e.superclass_id || b) rest)
      | inr other ↦ ground (arith, rest)
    ]

contains-cons_id :
    (found : Option ℕ) (ids : List ℕ) (id : ℕ)
    → contains ids id ≡ true
    → contains (cons_id found ids) id ≡ true
contains-cons_id none ids id there = there
contains-cons_id (some x) ids id there = ground (arith, there)

module _ (class_uri_to_id : List (Text × ℕ)) (ids : List ℕ) (table : List ClassSuperclass) where
  abbrev looked_at : List ClassSuperclass
  looked_at = filter (λ r. contains ids r.class_id) table

  -- what is added goes with the table
  abbrev Fits : Wiring → Type 0
  Fits w = are_keys (table ++ w.0) ≡ true

  add_edge-Fits :
      (e : ClassSuperclass) (w : Wiring)
      → contains ids e.class_id ≡ true
      → Fits w
      → Fits (add_edge class_uri_to_id looked_at e w)
  add_edge-Fits e (added, warnings) there fits =
      elim (Bool-cases (has_edge (looked_at ++ added) e)) [
        | inl old ↦ rw old fits
        | inr new ↦
            let same = λ (row : ClassSuperclass).
              row.class_id == e.class_id && row.superclass_id == e.superclass_id in
            let apart : has_edge (table ++ added) e ≡ false =
              any-append same table added
              ∙ ap (λ b. b || has_edge added e) (sym (has_edge-filter ids table e there))
              ∙ sym (any-append same looked_at added)
              ∙ new in
            rw new (
              ap are_keys (sym (append_assoc table added (e ∷ [])))
              ∙ are_keys-add (table ++ added) e fits apart)
      ]

  wire_superclass-Fits :
      (uri : Text) (class_id : ℕ) (u : Text) (found : Option ℕ) (w : Wiring)
      → contains ids class_id ≡ true
      → Fits w
      → Fits (wire_superclass class_uri_to_id looked_at uri class_id u found w)
  wire_superclass-Fits uri class_id u none (added, warnings) there fits = fits
  wire_superclass-Fits uri class_id u (some superclass_id) w there fits =
      add_edge-Fits (record { class_id = class_id; superclass_id = superclass_id }) w there fits

  wire_superclasses-Fits :
      (uri : Text) (class_id : ℕ) (uris : List Text) (w : Wiring)
      → contains ids class_id ≡ true
      → Fits w
      → Fits (wire_superclasses class_uri_to_id looked_at uri class_id uris w)
  wire_superclasses-Fits uri class_id [] w there fits = fits
  wire_superclasses-Fits uri class_id (u ∷ uris) w there fits =
      wire_superclasses-Fits uri class_id uris
        (wire_superclass class_uri_to_id looked_at uri class_id u (lookup u class_uri_to_id) w)
        there (wire_superclass-Fits uri class_id u (lookup u class_uri_to_id) w there fits)

  -- the ids of classes that name a superclass are among those looked at
  abbrev Covers : List ClassMetadata → Type 0
  Covers metadata =
      (id : ℕ)
      → contains (file_class_ids class_uri_to_id (filter has_superclasses metadata)) id ≡ true
      → contains ids id ≡ true

  wire_class-Fits :
      (cm : ClassMetadata) (metadata : List ClassMetadata) (found : Option ℕ) (w : Wiring)
      → lookup cm.uri class_uri_to_id ≡ found
      → Covers (cm ∷ metadata)
      → Fits w
      → Fits (wire_class class_uri_to_id looked_at cm found w)
  wire_class-Fits cm metadata none w e covers fits = fits
  wire_class-Fits cm metadata (some id) w e covers fits = elim (List-cases cm.superclass_uris) [
    | inl no_uris ↦ rw no_uris fits
    | inr (u, uris, some_uris) ↦
        wire_superclasses-Fits cm.uri id cm.superclass_uris w
          (covers id (rw (some_uris, e) (ground (arith, ==_refl id)))) fits
  ]

  Covers-tail :
      (cm : ClassMetadata) (metadata : List ClassMetadata)
      → Covers (cm ∷ metadata)
      → Covers metadata
  Covers-tail cm metadata covers id there = elim (Bool-cases (has_superclasses cm)) [
    | inl e ↦ covers id (
        rw e (
          contains-cons_id (lookup cm.uri class_uri_to_id)
            (file_class_ids class_uri_to_id (filter has_superclasses metadata)) id there))
    | inr e ↦ covers id (rw e there)
  ]

  pub wire-Fits :
      (metadata : List ClassMetadata) (w : Wiring)
      → Covers metadata
      → Fits w
      → Fits (wire class_uri_to_id looked_at metadata w)
  unfolding wire
  wire-Fits [] w covers fits = fits
  wire-Fits (cm ∷ metadata) w covers fits =
      let found = lookup cm.uri class_uri_to_id in
      wire-Fits metadata (wire_class class_uri_to_id looked_at cm found w)
        (Covers-tail cm metadata covers) (wire_class-Fits cm metadata found w refl covers fits)

Keyed : Session → Type 0
Keyed s = are_keys s.superclasses ≡ true

-- an action keeps the keys, whatever its outcome
abbrev Keeps : {A : Type 0} → Service A → Type 0
Keeps m = Triple Keyed m (λ _. Keyed) (λ _. Keyed)

Keeps-at :
    {A : Type 0} (m : Session → Service A) → ((s : Session) → Keeps (m s)) → Keeps (λ s. m s s)
Keeps-at m h = record { at = λ s k. (h s).at s k }

raise_if-Keeps : (b : Bool) → Keeps (raise_if b integrity_error)
raise_if-Keeps true = record { at = λ s k. k }
raise_if-Keeps false = record { at = λ s k. k }

collect-Keeps :
    {A B : Type 0} (f : A → Service B) (xs : List A)
    → ((x : A) → Keeps (f x))
    → Keeps (collect f xs)
collect-Keeps f [] each = record { at = λ s k. k }
collect-Keeps f (x ∷ xs) each =
    Triple-bind (f x) _ (each x)
      λ y. Triple-bind (collect f xs) _ (collect-Keeps f xs each) λ ys. Triple-pure (y ∷ ys)

module _ (env : Environment) (project_id : ℕ) where
  insert_class-Keeps : (row : OntologyClass) → Keeps (insert_class env row)
  unfolding Keyed
  insert_class-Keeps row = Keeps-at _ λ s.
      let refused = any (same_identifier row) s.classes || any (same_uri row) s.classes in
      Triple-bind (check_project row.project_id) _ (Keeps-at _ λ s. raise_if-Keeps _) λ u.
        Triple-bind (raise_if refused integrity_error) _ (raise_if-Keeps refused)
          λ u. record { at = λ s k. k }

  create_class-Keeps : (cm : ClassMetadata) → Keeps (create_class env project_id cm)
  unfolding create_class
  create_class-Keeps cm = Keeps-at _ λ s.
      let row = class_row env project_id cm s in
      Triple-bind (insert_class env row) _ (insert_class-Keeps row) λ u. Triple-pure row

  log_class-Keeps : (c : OntologyClass) → Keeps (log_class env project_id c)
  unfolding Keyed
  log_class-Keeps c = record { at = λ s k. k }

  wire_classes-Keeps :
      (m : List (Text × ℕ)) (metadata : List ClassMetadata) → Keeps (wire_classes env m metadata)
  unfolding Keyed
  wire_classes-Keeps m metadata = record {
    at = λ s k.
        wire-Fits m (file_class_ids m (filter has_superclasses metadata)) s.superclasses metadata
          ([], []) (λ id h. h) (ap are_keys (append-nil s.superclasses) ∙ k);
  }

  import_classes-Keeps :
      (metadata : List ClassMetadata) (uris ids : List Text) (m : List (Text × ℕ))
      → Keeps (import_classes env project_id metadata uris ids m)
  unfolding import_classes
  import_classes-Keeps metadata uris ids m =
      Triple-bind (collect (create_class env project_id) (classes_to_create uris ids metadata)) _
        (collect-Keeps (create_class env project_id) (classes_to_create uris ids metadata)
          create_class-Keeps)
        λ rows.
          let all = put_all (λ c. c.uri) (λ c. c.id) m rows in
          Triple-bind (wire_classes env all metadata) _ (wire_classes-Keeps all metadata)
            λ warnings.
              Triple-bind (collect (log_class env project_id) rows) _
                (collect-Keeps (log_class env project_id) rows log_class-Keeps)
                λ created. Triple-pure (created, warnings, all)

  -- Where no two rows of class_superclass have the same key, this is so after importing classes, into
  -- any project, of any file and of any map from URIs to ids, whatever the outcome.
  pub import_classes-are_keys :
      (metadata : List ClassMetadata) (uris ids : List Text) (m : List (Text × ℕ)) (s : Session)
      → are_keys s.superclasses ≡ true
      → are_keys (import_classes env project_id metadata uris ids m s).1.superclasses ≡ true
  unfolding Keyed
  import_classes-are_keys metadata uris ids m s keys =
      let after = import_classes env project_id metadata uris ids m s in
      Ensures-always Keyed after.0 after.1 ((import_classes-Keeps metadata uris ids m).at s keys)
