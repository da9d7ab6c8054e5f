-- ===== src/Projects/Delete/References.antt =====
-- The foreign keys of the tables, and what of them stays when a project goes.
use taxonomy_builder.Common.{
  ℕ, ◌≡◌, refl, ◌∙◌, inl, inr, Bool, true, false, not, ◌&&◌, Option, none, some, List, [], ◌∷◌, any,
  all, filter, map, all-kept, all-weaken, ◌==◌, Bool-cases, arith,
}
use taxonomy_builder.Models.Vocabulary.{Project, ConceptScheme, Concept, OntologyClass, Property}
use taxonomy_builder.Models.Activity.{Comment, PublishedVersion}
use taxonomy_builder.Models.Session.{Db}
use taxonomy_builder.Projects.Delete.{
  version_gone, answers_gone, scheme_gone, concept_gone, class_gone, property_gone, kept,
  in_gone_scheme, restricts, without_project,
}

abbrev pub is_none {ℓ} : {A : Type ℓ} → Option A → Bool
is_none none = true
is_none (some x) = false

abbrev pub optional : (ℕ → Bool) → Option ℕ → Bool
optional known none = true
optional known (some k) = known k

module _ (db : Db) where
  abbrev pub project_known : ℕ → Bool
  project_known k = any (λ (p : Project). p.id == k) db.projects

  abbrev pub scheme_known : ℕ → Bool
  scheme_known k = any (λ (x : ConceptScheme). x.id == k) db.schemes

  abbrev pub concept_known : ℕ → Bool
  concept_known k = any (λ (c : Concept). c.id == k) db.concepts

  abbrev pub class_known : ℕ → Bool
  class_known k = any (λ (c : OntologyClass). c.id == k) db.classes

  abbrev pub property_known : ℕ → Bool
  property_known k = any (λ (p : Property). p.id == k) db.properties

  abbrev version_known : ℕ → Bool
  version_known k = any (λ (v : PublishedVersion). v.id == k) db.versions

  -- a comment that is no reply itself
  abbrev pub top_level_known : ℕ → Bool
  top_level_known k = any (λ (x : Comment). x.id == k && is_none x.parent_comment_id) db.comments

  -- The foreign keys of the tables that hold a project's rows, all but those to users; a reply
  -- moreover answers a comment that is no reply.
  pub record HasReferences : Type 0 where
    pub schemes : all (λ x. project_known x.project_id) db.schemes ≡ true
    pub concepts : all (λ c. scheme_known c.scheme_id) db.concepts ≡ true
    pub broader :
        all (λ r. concept_known r.concept_id && concept_known r.broader_concept_id) db.broader
        ≡ true
    pub related :
        all (λ r. concept_known r.concept_id && concept_known r.related_concept_id) db.related
        ≡ true
    pub classes : all (λ c. project_known c.project_id) db.classes ≡ true
    pub superclasses :
        all (λ r. class_known r.class_id && class_known r.superclass_id) db.superclasses ≡ true
    pub restrictions : all (λ r. class_known r.class_id) db.restrictions ≡ true
    pub properties : all (λ p. project_known p.project_id) db.properties ≡ true
    pub ranges : all (λ p. optional scheme_known p.range_scheme_id) db.properties ≡ true
    pub domain_classes :
        all (λ r. property_known r.property_id && class_known r.class_id) db.domain_classes ≡ true
    pub events : all (λ e. optional project_known e.project_id) db.events ≡ true
    pub event_schemes : all (λ e. optional scheme_known e.scheme_id) db.events ≡ true
    pub versions : all (λ v. project_known v.project_id) db.versions ≡ true
    pub previous : all (λ v. optional version_known v.previous_version_id) db.versions ≡ true
    pub feedback : all (λ f. project_known f.project_id) db.feedback ≡ true
    pub comments : all (λ x. concept_known x.concept_id) db.comments ≡ true
    pub parents : all (λ x. optional top_level_known x.parent_comment_id) db.comments ≡ true

module _ {A : Type 0} where
  -- a row that is there and does not go
  stays :
      (hit drop : A → Bool) (xs : List A)
      → any hit xs ≡ true
      → any (λ x. hit x && drop x) xs ≡ false
      → any hit (filter (λ x. not (drop x)) xs) ≡ true
  stays hit drop [] h k = h
  stays hit drop (x ∷ xs) h k = ground (arith, stays hit drop xs)

  -- a row that is there and would go for another reason than the one that never holds of it
  pub stays_for :
      (hit top gone drop : A → Bool) (xs : List A)
      → ((x : A) → top x ≡ true → drop x ≡ gone x)
      → any (λ x. hit x && top x) xs ≡ true
      → any (λ x. hit x && gone x) xs ≡ false
      → any (λ x. hit x && top x) (filter (λ x. not (drop x)) xs) ≡ true
  stays_for hit top gone drop [] same h k = h
  stays_for hit top gone drop (x ∷ xs) same h k =
      ground (arith, same x, stays_for hit top gone drop xs same)

  any-map :
      {B : Type 0} (p : B → Bool) (f : A → B) (xs : List A)
      → any p (map f xs) ≡ any (λ x. p (f x)) xs
  any-map p f [] = refl
  any-map p f (x ∷ xs) = ground (arith, any-map p f xs)

  all-map :
      {B : Type 0} (p : B → Bool) (f : A → B) (xs : List A)
      → all p (map f xs) ≡ all (λ x. p (f x)) xs
  all-map p f [] = refl
  all-map p f (x ∷ xs) = ground (arith, all-map p f xs)

pub known-removed :
    (rows : List Project) (c k : ℕ)
    → any (λ (p : Project). p.id == k) (filter (λ (p : Project). not (p.id == c)) rows)
      ≡ (any (λ (p : Project). p.id == k) rows && not (k == c))
known-removed [] c k = refl
known-removed (p ∷ rows) c k = ground (arith, known-removed rows c k)

module _ (db : Db) (project_id : ℕ) where
  abbrev after : Db
  after = without_project db project_id

  project_stays :
      (k : ℕ)
      → project_known db k ≡ true
      → not (k == project_id) ≡ true
      → project_known after k ≡ true
  project_stays k h e = known-removed db.projects project_id k ∙ rw (h, e) refl

  scheme_stays :
      (k : ℕ)
      → scheme_known db k ≡ true
      → scheme_gone db project_id k ≡ false
      → scheme_known after k ≡ true
  scheme_stays k = stays _ (λ x. x.project_id == project_id) db.schemes

  concept_stays :
      (k : ℕ)
      → concept_known db k ≡ true
      → concept_gone db project_id k ≡ false
      → concept_known after k ≡ true
  concept_stays k = stays _ (λ c. scheme_gone db project_id c.scheme_id) db.concepts

  class_stays :
      (k : ℕ)
      → class_known db k ≡ true
      → class_gone db project_id k ≡ false
      → class_known after k ≡ true
  class_stays k = stays _ (λ c. c.project_id == project_id) db.classes

  property_stays :
      (k : ℕ)
      → property_known db k ≡ true
      → property_gone db project_id k ≡ false
      → property_known after k ≡ true
  property_stays k = stays _ (λ p. p.project_id == project_id) db.properties

  range_stays :
      (o : Option ℕ)
      → optional (scheme_known db) o ≡ true
      → in_gone_scheme db project_id o ≡ false
      → optional (scheme_known after) o ≡ true
  range_stays none h e = refl
  range_stays (some k) h e = scheme_stays k h e

  ranges_stay :
      (rows : List Property)
      → any (restricts db project_id) rows ≡ false
      → all (λ p. optional (scheme_known db) p.range_scheme_id) rows ≡ true
      → all
          (λ p. optional (scheme_known after) p.range_scheme_id)
          (filter (λ p. not (p.project_id == project_id)) rows)
        ≡ true
  ranges_stay [] none_over h = refl
  ranges_stay (p ∷ rows) none_over h = elim (Bool-cases (p.project_id == project_id)) [
    | inl e ↦ rw e (ranges_stay rows (ground arith) (ground arith))
    | inr e ↦ rw e (
        ground
          (arith, range_stays p.range_scheme_id (ground arith) (ground arith), ranges_stay rows))
  ]

  event_stays :
      (o : Option ℕ)
      → optional (project_known db) o ≡ true
      → optional (project_known after) (kept (λ k. k == project_id) o) ≡ true
  event_stays none h = refl
  event_stays (some k) h = elim (Bool-cases (k == project_id)) [
    | inl e ↦ rw e refl
    | inr e ↦ rw e (project_stays k h (rw e refl))
  ]

  event_scheme_stays :
      (o : Option ℕ)
      → optional (scheme_known db) o ≡ true
      → optional (scheme_known after) (kept (scheme_gone db project_id) o) ≡ true
  event_scheme_stays none h = refl
  event_scheme_stays (some k) h = elim (Bool-cases (scheme_gone db project_id k)) [
    | inl e ↦ rw e refl
    | inr e ↦ rw e (scheme_stays k h e)
  ]

  version_stays :
      (k : ℕ)
      → version_known db k ≡ true
      → version_gone db project_id k ≡ false
      → version_known after k ≡ true
  version_stays k h e =
      any-map (λ (v : PublishedVersion). v.id == k) _
        (filter (λ v. not (v.project_id == project_id)) db.versions)
      ∙ stays _ (λ v. v.project_id == project_id) db.versions h e

  previous_stays :
      (o : Option ℕ)
      → optional (version_known db) o ≡ true
      → optional (version_known after) (kept (version_gone db project_id) o) ≡ true
  previous_stays none h = refl
  previous_stays (some k) h = elim (Bool-cases (version_gone db project_id k)) [
    | inl e ↦ rw e refl
    | inr e ↦ rw e (version_stays k h e)
  ]

  answers_none : (o : Option ℕ) → is_none o ≡ true → answers_gone db project_id o ≡ false
  answers_none none h = refl
  answers_none (some k) h = absurd cc

  parent_stays :
      (o : Option ℕ)
      → optional (top_level_known db) o ≡ true
      → answers_gone db project_id o ≡ false
      → optional (top_level_known after) o ≡ true
  parent_stays none h e = refl
  parent_stays (some k) h e =
      stays_for (λ x. x.id == k) (λ x. is_none x.parent_comment_id)
        (λ x. concept_gone db project_id x.concept_id) _ db.comments
        (λ x top. ground (arith, answers_none x.parent_comment_id top)) h e

  both_stay : {a b : Bool} → a ≡ true → b ≡ true → (a && b) ≡ true
  both_stay h k = ground arith

  pub without_project-HasReferences :
      any (restricts db project_id) db.properties ≡ false → HasReferences db → HasReferences after
  without_project-HasReferences none_over h = record {
    schemes = all-kept _ _ _ db.schemes (λ x k e. project_stays x.project_id k e) h.schemes;
    concepts =
        all-kept _ _ _ db.concepts (λ c k e. scheme_stays c.scheme_id k (ground arith)) h.concepts;
    broader =
        all-kept _ _ _ db.broader
          (λ r k e.
            both_stay (concept_stays r.concept_id (ground arith) (ground arith))
              (concept_stays r.broader_concept_id (ground arith) (ground arith)))
          h.broader;
    related =
        all-kept _ _ _ db.related
          (λ r k e.
            both_stay (concept_stays r.concept_id (ground arith) (ground arith))
              (concept_stays r.related_concept_id (ground arith) (ground arith)))
          h.related;
    classes = all-kept _ _ _ db.classes (λ c k e. project_stays c.project_id k e) h.classes;
    superclasses =
        all-kept _ _ _ db.superclasses
          (λ r k e.
            both_stay (class_stays r.class_id (ground arith) (ground arith))
              (class_stays r.superclass_id (ground arith) (ground arith)))
          h.superclasses;
    restrictions =
        all-kept _ _ _ db.restrictions (λ r k e. class_stays r.class_id k (ground arith))
          h.restrictions;
    properties =
        all-kept _ _ _ db.properties (λ p k e. project_stays p.project_id k e) h.properties;
    ranges = ranges_stay db.properties none_over h.ranges;
    domain_classes =
        all-kept _ _ _ db.domain_classes
          (λ r k e.
            both_stay (property_stays r.property_id (ground arith) (ground arith))
              (class_stays r.class_id (ground arith) (ground arith)))
          h.domain_classes;
    events =
        all-map _ _ db.events
        ∙ all-weaken _ _ db.events (λ e k. event_stays e.project_id k) h.events;
    event_schemes =
        all-map _ _ db.events
        ∙ all-weaken _ _ db.events (λ e k. event_scheme_stays e.scheme_id k) h.event_schemes;
    versions =
        all-map _ _ (filter (λ v. not (v.project_id == project_id)) db.versions)
        ∙ all-kept _ _ _ db.versions (λ v k e. project_stays v.project_id k e) h.versions;
    previous =
        all-map _ _ (filter (λ v. not (v.project_id == project_id)) db.versions)
        ∙ all-kept _ _ _ db.versions (λ v k e. previous_stays v.previous_version_id k) h.previous;
    feedback = all-kept _ _ _ db.feedback (λ f k e. project_stays f.project_id k e) h.feedback;
    comments =
        all-kept _ _ _ db.comments (λ x k e. concept_stays x.concept_id k (ground arith))
          h.comments;
    parents =
        all-kept _ _ _ db.comments (λ x k e. parent_stays x.parent_comment_id k (ground arith))
          h.parents;
  }
