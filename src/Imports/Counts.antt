-- ===== src/Imports/Counts.antt =====
-- The schemes that an import creates are those of the preview, with as many concepts and relations.
use taxonomy_builder.Common.{
  subst, ℕ, suc, ◌+◌, ◌&&◌, ◌≡◌, refl, sym, ◌∙◌, ap, inl, inr, Bool, true, false, ◌||◌, not, Option,
  none, some, List, [], ◌∷◌, ◌++◌, Text, text_eq, text_eq_iff, text_eq_refl, contains_text, filter,
  length, length-append, map, Triple-after, Bool-cases, Option-cases, arith,
}
use mathlib.Core.List.{append-nil}
use taxonomy_builder.Common.Dict.{lookup, put, keys}
use taxonomy_builder.Models.Vocabulary.{ConceptScheme, Concept, ConceptBroader}
use taxonomy_builder.Rdf.Graph.{uri, Graph, uris_of, skos_broader}
use taxonomy_builder.Rdf.Analysis.{set_or_empty}
use taxonomy_builder.Rdf.Concepts.{broader_of, count_broader_relationships, get_scheme_title}
use taxonomy_builder.Imports.{Environment, SchemeCreatedResponse, for_each}
use taxonomy_builder.Imports.Schemes.{
  broader_to, broader_among, broader_rows, create_concept, import_concepts, Imported, titled_scheme,
  import_scheme, insert_concept, concept_row, insert_scheme, scheme_row, log_scheme, insert_broader,
  log_concept, after_scheme, import_schemes,
}
use taxonomy_builder.Imports.Preview.{SchemePreviewResponse, SchemePreviews, preview_schemes}
use taxonomy_builder.Imports.Titles.{get_unique_title_lem}
use taxonomy_builder.Imports.Returns.{
  Runs, insert-Runs, insert_in_project-Runs, for_each-Runs, Returns, Returns-at, Returns-pure,
  Returns-bind, Returns-then, Returns-collect,
}

abbrev is_found : {V : Type 0} → Option V → Bool
is_found none = false
is_found (some v) = true

lookup-keys :
    {V : Type 0} (u : Text) (m : List (Text × V)) → is_found (lookup u m) ≡ contains_text (keys m) u
lookup-keys u [] = refl
lookup-keys u ((j, v) ∷ m) = ground (arith, lookup-keys u m)

-- a key that is put in is the only new one
pub keys-put :
    {V : Type 0} (k u : Text) (v : V) (m : List (Text × V))
    → contains_text (keys (put k v m)) u ≡ (text_eq k u || contains_text (keys m) u)
keys-put k u v [] = refl
keys-put k u v ((j, w) ∷ m) =
    ground (arith, text_eq_iff j k, text_eq_iff j u, text_eq_iff k u, keys-put k u v m)

map_self : (xs : List Text) → map (λ u. u) xs ≡ xs
map_self [] = refl
map_self (x ∷ xs) = ap (λ ys. x ∷ ys) (map_self xs)

keys-map : (rows : List (Text × Concept)) → keys rows ≡ map (λ x. x.0) rows
keys-map [] = refl
keys-map ((u, c) ∷ rows) = ap (λ us. u ∷ us) (keys-map rows)

module _ (g : Graph) (rows : List (Text × Concept)) where
  length-broader_to :
      (concept : Concept) (uris : List Text)
      → length (broader_to g rows concept uris) ≡ length (filter (contains_text (keys rows)) uris)
  length-broader_to concept [] = refl
  length-broader_to concept (u ∷ uris) = elim (Option-cases (lookup u rows)) [
    | inl e ↦
        let out : contains_text (keys rows) u ≡ false = sym (lookup-keys u rows) ∙ ap is_found e in
        rw (e, out) (length-broader_to concept uris)
    | inr (c, e) ↦
        let found : contains_text (keys rows) u ≡ true = sym (lookup-keys u rows) ∙ ap is_found e in
        rw (e, found) (ap suc (length-broader_to concept uris))
  ]

  length-broader_among :
      (some_rows : List (Text × Concept))
      → length (broader_among g rows some_rows) ≡ broader_of g (keys rows) (keys some_rows)
  length-broader_among [] = refl
  length-broader_among ((u, concept) ∷ some_rows) =
      let uris = uris_of (g.objects (uri u) skos_broader) in
      omega (
        arith,
        length-append (broader_to g rows concept uris) (broader_among g rows some_rows),
        length-broader_to concept uris,
        length-broader_among some_rows,
      )

insert_concept-Runs : (row : Concept) → Runs (insert_concept row)
insert_concept-Runs row = insert-Runs _ _

insert_broader-Runs : (row : ConceptBroader) → Runs (insert_broader row)
insert_broader-Runs row = insert-Runs _ _

insert_scheme-Runs : (row : ConceptScheme) → Runs (insert_scheme row)
insert_scheme-Runs row = insert_in_project-Runs _ _ _

module _ (env : Environment) (g : Graph) where
  create_concept-Returns :
      (scheme_id : ℕ) (u : Text) → Returns (create_concept env g scheme_id u) (λ x. x.0 ≡ u)
  unfolding create_concept
  create_concept-Returns scheme_id u = Returns-at _ _ λ s.
      Returns-then (insert_concept (concept_row env g scheme_id u s)) _ _
        (insert_concept-Runs (concept_row env g scheme_id u s))
        λ _. Returns-pure (u, concept_row env g scheme_id u s) _ refl

  import_concepts-Returns :
      (project_id scheme_id : ℕ) (concepts : List Text)
      → Returns
          (import_concepts env g project_id scheme_id concepts)
          (λ n. n ≡ count_broader_relationships g concepts)
  unfolding import_concepts broader_rows count_broader_relationships
  import_concepts-Returns project_id scheme_id concepts =
      Returns-bind _ _ (λ rows. map (λ x. x.0) rows ≡ map (λ u. u) concepts) _
        (Returns-collect (create_concept env g scheme_id) (λ u. u) (λ x. x.0)
          (create_concept-Returns scheme_id) concepts)
        λ rows e.
          Returns-then (for_each insert_broader (broader_rows g rows)) _ _
            (for_each-Runs insert_broader (broader_rows g rows) insert_broader-Runs)
            λ _.
              Returns-then (for_each (log_concept env g project_id scheme_id) rows) _ _
                (for_each-Runs (log_concept env g project_id scheme_id) rows
                  λ (u, c). record { at = λ s h. tt })
                λ _. Returns-pure (length (broader_rows g rows)) _ (
                  let same : keys rows ≡ concepts = keys-map rows ∙ e ∙ map_self concepts in
                  length-broader_among g rows rows ∙ ap (λ us. broader_of g us us) same)

  titled_scheme-Returns :
      (project_id : ℕ) (scheme_uri : Text) (concepts : List Text) (title : Text)
      → Returns
          (titled_scheme env g project_id scheme_uri concepts (some title))
          (λ x. x.1 ≡ count_broader_relationships g concepts)
  titled_scheme-Returns project_id scheme_uri concepts title = Returns-at _ _ λ s.
      let scheme = scheme_row env g project_id scheme_uri title s in
      Returns-then (insert_scheme scheme) _ _ (insert_scheme-Runs scheme) λ _.
        Returns-then (log_scheme env g project_id scheme) _ _ (record { at = λ s h. tt })
          λ _.
            Returns-bind (import_concepts env g project_id scheme.id concepts) _
              (λ n. n ≡ count_broader_relationships g concepts) _
              (import_concepts-Returns project_id scheme.id concepts)
              λ n e. Returns-pure (scheme, n) _ e

  import_scheme-Returns :
      (project_id : ℕ) (scheme_uri : Text) (concepts : List Text)
      → Returns
          (import_scheme env g project_id scheme_uri concepts)
          (λ x. x.1 ≡ count_broader_relationships g concepts)
  unfolding import_scheme
  import_scheme-Returns project_id scheme_uri concepts = Returns-at _ _ λ s.
      let (title, found, free, kept) =
        get_unique_title_lem project_id (get_scheme_title g scheme_uri) s.schemes in
      subst
        (λ o.
          Returns (titled_scheme env g project_id scheme_uri concepts o)
            (λ x. x.1 ≡ count_broader_relationships g concepts))
        (sym found) (titled_scheme-Returns project_id scheme_uri concepts title)

-- a list without repeats
abbrev pub are_distinct : List Text → Bool
are_distinct [] = true
are_distinct (u ∷ us) = not (contains_text us u) && are_distinct us

abbrev pub counts : List SchemeCreatedResponse → List ℕ
counts created = map (λ c. c.concepts_created) created

abbrev pub preview_counts : List SchemePreviewResponse → List ℕ
preview_counts previews = map (λ p. p.concepts_count) previews

-- what was imported before, and what the preview says of the rest
abbrev pub Agrees : (before : Imported) → SchemePreviews → (after : Imported) → Type 0
Agrees before previews after =
    (after.total_concepts ≡ before.total_concepts + previews.1)
    × (after.total_relationships ≡ before.total_relationships + previews.2)
    × (counts after.created ≡ counts before.created ++ preview_counts previews.0)

-- the URIs that the import knows are, of those that are left, the project's
abbrev KnownAlike : List Text → List (Text × ℕ) → List Text → Type 0
KnownAlike schemes m existing =
    (u : Text)
    → contains_text schemes u ≡ true
    → contains_text (keys m) u ≡ contains_text existing u

put-KnownAlike :
    (u : Text) (schemes : List Text) (id : ℕ) (m : List (Text × ℕ)) (existing : List Text)
    → contains_text schemes u ≡ false
    → KnownAlike (u ∷ schemes) m existing
    → KnownAlike schemes (put u id m) existing
put-KnownAlike u schemes id m existing out known v there =
    ground (arith, known v, keys-put u v id m, text_eq_iff u v)

counts-add :
    (created : List SchemeCreatedResponse) (c : SchemeCreatedResponse) (ns : List ℕ)
    → counts (created ++ c ∷ []) ++ ns ≡ counts created ++ c.concepts_created ∷ ns
counts-add [] c ns = refl
counts-add (x ∷ created) c ns = ap (λ ms. x.concepts_created ∷ ms) (counts-add created c ns)

module _ (env : Environment) (g : Graph) (project_id : ℕ) (by_scheme : List (Text × List Text))
    (existing : List Text) where
  pub import_schemes-Returns :
      (schemes : List Text) (i : Imported)
      → are_distinct schemes ≡ true
      → KnownAlike schemes i.scheme_uri_to_id existing
      → Returns
          (import_schemes env g project_id by_scheme schemes i)
          (Agrees i (preview_schemes g by_scheme existing schemes))
  unfolding import_schemes preview_schemes
  import_schemes-Returns [] i distinct known =
      Returns-pure i _ (omega arith, omega arith, sym (append-nil (counts i.created)))
  import_schemes-Returns (u ∷ schemes) i distinct known =
      let new : contains_text schemes u ≡ false = ground arith in
      let more : are_distinct schemes ≡ true = ground arith in
      let concepts = set_or_empty (lookup u by_scheme) in
      let alike = known u (ground (arith, text_eq_refl u)) in
      elim (Bool-cases (contains_text existing u)) [
        | inl e ↦
            rw (alike ∙ e, e)
              (import_schemes-Returns schemes i more (λ v there. known v (ground arith)))
        | inr e ↦
            rw (alike ∙ e, e)
              (Returns-bind (import_scheme env g project_id u concepts) _ _ _
                (import_scheme-Returns env g project_id u concepts)
                λ stored r.
                  let next = after_scheme env g i u concepts stored in
                  let response : SchemeCreatedResponse = record {
                    id = stored.0.id;
                    title = stored.0.title;
                    concepts_created = length concepts;
                  } in
                  Triple-after (import_schemes env g project_id by_scheme schemes next)
                    (λ (i' : Imported) s a. (
                      omega (arith, a.0),
                      omega (arith, a.1, r),
                      a.2
                          ∙ counts-add i.created response
                              (preview_counts (preview_schemes g by_scheme existing schemes).0),
                    ))
                    (import_schemes-Returns schemes next more
                      (put-KnownAlike u schemes stored.0.id i.scheme_uri_to_id existing new known)))
      ]
