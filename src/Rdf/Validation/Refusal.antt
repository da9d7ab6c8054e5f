-- ===== src/Rdf/Validation/Refusal.antt =====
-- A file is refused for the schemes of its URIs and for cycles of superclasses.
use taxonomy_builder.Common.{
  Result, ok, raise, all, ◌≡◌, ◌↔◌, refl, sym, ◌∙◌, inl, inr, Bool, true, false, not, ◌&&◌, ◌||◌,
  Option, none, some, List, [], ◌∷◌, ◌++◌, Text, first_of_each, filter, map, any, if◌then◌else◌,
  Bool-cases, arith,
}
use taxonomy_builder.Rdf.Classes.{ClassMetadata, find_owl_classes, extract_class_metadata}
use taxonomy_builder.Rdf.Cycles.{by_uri}
use taxonomy_builder.Rdf.Cycles.Decides.{Reports, detect_superclass_cycles_lem}
use taxonomy_builder.Rdf.Cycles.Paths.{Cycle}
use taxonomy_builder.Rdf.Graph.{Node, uri, blank, literal, Statement, Graph, uris_of, rdfs_domain}
use taxonomy_builder.Rdf.PropertyData.{find_properties, domain_uris}
use taxonomy_builder.Rdf.Unions.Collection.{IsFinite, resolve_union_all_ends}
use taxonomy_builder.Rdf.Uris.{is_parsed}
use taxonomy_builder.Snapshots.{well_known_superclass_uris}
use taxonomy_builder.Rdf.Validation.{
  GraphError, value_error, endless, with_schemes, scheme_issues, check_uri_schemes, unresolved_in,
  unresolved, check_unresolved_domains, check_superclass_cycles, collected, validate_graph,
}
use taxonomy_builder.Rdf.Issues.{
  ValidationIssue, GraphResult, has_errors, is_some_issue, allowed, scheme_issue, ends_of,
  is_empty_graph, empty_graph, issues_of_cycles,
}

-- a URI is for the web
abbrev pub is_web : Node → Bool
is_web (uri u) = allowed u
is_web (blank b) = true
is_web (literal t truth holds) = true

abbrev pub all_web : List Statement → Bool
all_web [] = true
all_web (t ∷ triples) = is_web t.subject && is_web t.object && all_web triples

-- `urlparse` accepts the URIs of the triples
module _ (is_netloc : Text → Bool) where
  abbrev pub is_readable : Node → Bool
  is_readable (uri u) = is_parsed is_netloc u
  is_readable (blank b) = true
  is_readable (literal t truth holds) = true

  abbrev pub all_readable : List Statement → Bool
  all_readable [] = true
  all_readable (t ∷ triples) = is_readable t.subject && is_readable t.object && all_readable triples

  readable_uri :
      (n : Node) (rest : List Node)
      → all (is_parsed is_netloc) (uris_of (n ∷ rest))
        ≡ (is_readable n && all (is_parsed is_netloc) (uris_of rest))
  readable_uri (uri u) rest = refl
  readable_uri (blank u) rest = refl
  readable_uri (literal u truth holds) rest = refl

  readable_uris :
      (triples : List Statement)
      → all (is_parsed is_netloc) (uris_of (ends_of triples)) ≡ all_readable triples
  readable_uris [] = refl
  readable_uris (t ∷ triples) =
      readable_uri t.subject (t.object ∷ ends_of triples)
      ∙ ground (arith, readable_uri t.object (ends_of triples), readable_uris triples)

-- the classes of the file, as the search for cycles reads them
abbrev pub file_classes : Graph → List ClassMetadata
file_classes g = map (extract_class_metadata g well_known_superclass_uris) (find_owl_classes g)

is_some_issue-append :
    (xs ys : List ValidationIssue)
    → is_some_issue (xs ++ ys) ≡ (is_some_issue xs || is_some_issue ys)
is_some_issue-append [] ys = refl
is_some_issue-append (x ∷ xs) ys = refl

some_bad :
    (p : Text → Bool) (us : List Text)
    → is_some_issue (map scheme_issue (first_of_each [] (filter p us))) ≡ any p us
some_bad p [] = refl
some_bad p (u ∷ us) = elim (Bool-cases (p u)) [ inl e ↦ rw e refl | inr e ↦ rw e (some_bad p us) ]

bad_uri :
    (n : Node) (rest : List Node) (b : Bool)
    → any (λ u. not (allowed u)) (uris_of rest) ≡ not b
    → any (λ u. not (allowed u)) (uris_of (n ∷ rest)) ≡ not (is_web n && b)
bad_uri (uri u) rest b h = ground arith
bad_uri (blank u) rest b h = h
bad_uri (literal u truth holds) rest b h = h

bad_uris :
    (triples : List Statement)
    → any (λ u. not (allowed u)) (uris_of (ends_of triples)) ≡ not (all_web triples)
bad_uris [] = refl
bad_uris (t ∷ triples) =
    bad_uri t.subject (t.object ∷ ends_of triples) (is_web t.object && all_web triples)
      (bad_uri t.object (ends_of triples) (all_web triples) (bad_uris triples))
    ∙ ground arith

module _ (g : Graph) where
  domain_uris_ends : IsFinite g → (n : Option Node) → (r : List Text) × (domain_uris g n ≡ some r)
  domain_uris_ends fin none = ([], refl)
  domain_uris_ends fin (some (uri u)) = (u ∷ [], refl)
  domain_uris_ends fin (some (blank b)) = resolve_union_all_ends g fin (blank b)
  domain_uris_ends fin (some (literal t truth holds)) = ([], refl)

  unresolved_in_ends :
      IsFinite g
      → (class_uris : List Text) (properties : List (Text × Text))
      → (r : List ValidationIssue) × (unresolved_in g class_uris properties ≡ some r)
  unresolved_in_ends fin class_uris [] = ([], refl)
  unresolved_in_ends fin class_uris ((u, kind) ∷ properties) =
      let (domains, e) = domain_uris_ends fin (g.value (uri u) rdfs_domain) in
      let (rest, e') = unresolved_in_ends fin class_uris properties in
      (unresolved g class_uris u domains ++ rest, rw (e, e') refl)

  scheme_issues-web : is_some_issue (scheme_issues g) ≡ not (all_web g.triples)
  scheme_issues-web =
      some_bad (λ u. not (allowed u)) (uris_of (ends_of g.triples)) ∙ bad_uris g.triples

  -- the file has no cycle of superclasses
  abbrev pub NoCycle : Type 0
  NoCycle = (a : Text) → ¬ (Cycle (by_uri (file_classes g)) a)

  abbrev CycleIssues : Option (List ValidationIssue) → Type 0
  CycleIssues none = ⊥
  CycleIssues (some issues) = (is_some_issue issues ≡ false) ↔ NoCycle

  issues_of_cycles_lem :
      (edges : Option (List (Text × Text)))
      → Reports (by_uri (file_classes g)) edges
      → CycleIssues (issues_of_cycles edges)
  issues_of_cycles_lem none h = h
  issues_of_cycles_lem (some []) (sound, decides) = (λ _. decides.0 refl, λ _. refl)
  issues_of_cycles_lem (some (e ∷ edges)) (sound, decides) = (λ h. cc, λ h. cc (decides.1 h))

  check_superclass_cycles_lem : CycleIssues (check_superclass_cycles g)
  unfolding check_superclass_cycles
  check_superclass_cycles_lem =
      issues_of_cycles_lem _ (detect_superclass_cycles_lem (file_classes g))

  -- what validating is to give
  abbrev pub Refuses : (is_netloc : Text → Bool) → Result GraphError GraphResult → Type 0
  Refuses is_netloc (raise value_error) = all_readable is_netloc g.triples ≡ false
  Refuses is_netloc (raise endless) = ⊥
  Refuses is_netloc (ok r) =
      (all_readable is_netloc g.triples ≡ true)
      × ((has_errors r ≡ false) ↔ ((all_web g.triples ≡ true) × NoCycle))

  collected_lem :
      (is_netloc : Text → Bool) (domains : List ValidationIssue)
      (cycles : Option (List ValidationIssue))
      → CycleIssues cycles
      → Refuses is_netloc
          (with_schemes (check_uri_schemes g is_netloc) (collected g (some domains) cycles))
  unfolding check_uri_schemes
  collected_lem is_netloc domains cycles h = elim (Bool-cases (all_readable is_netloc g.triples)) [
    | inl e ↦ rw (readable_uris is_netloc g.triples, e) (of_issues cycles h e)
    | inr e ↦ rw (readable_uris is_netloc g.triples, e) e
  ]
    where
      of_issues :
          (cycles : Option (List ValidationIssue))
          → CycleIssues cycles
          → all_readable is_netloc g.triples ≡ true
          → Refuses is_netloc (collected g (some domains) cycles (scheme_issues g))
      of_issues none h e = absurd h
      of_issues (some cycles) h e = (
        e,
        (
          λ e.
              let both = sym (is_some_issue-append (scheme_issues g) cycles) ∙ e in
              (ground (arith, scheme_issues-web), h.0 (ground arith)),
          λ (web, free).
              is_some_issue-append (scheme_issues g) cycles
              ∙ ground (arith, scheme_issues-web, h.1 free),
        ),
      )

-- Where only subjects of triples have a rest, validating a graph with triples ends. It raises
-- ValueError exactly if `urlparse` does for a URI among the subjects and objects; otherwise it finds
-- no error exactly if every such URI is one for http or https, and the superclasses of its classes
-- have no cycle, well-known ones left out.
pub validate_graph-Refuses :
    (g : Graph) (is_netloc : Text → Bool) (class_uris : List Text) (t : Statement)
    (rest : List Statement)
    → IsFinite g
    → g.triples ≡ t ∷ rest
    → Refuses g is_netloc (validate_graph g is_netloc class_uris)
unfolding validate_graph check_unresolved_domains
validate_graph-Refuses g is_netloc class_uris t rest fin e =
    let (domains, d) =
      unresolved_in_ends g fin (class_uris ++ find_owl_classes g) (find_properties g) in
    nonempty g.triples e (
      rw d (
        collected_lem g is_netloc domains (check_superclass_cycles g)
          (check_superclass_cycles_lem g)))
  where
    nonempty :
        (triples : List Statement)
        → triples ≡ t ∷ rest
        → Refuses g is_netloc (
            with_schemes (check_uri_schemes g is_netloc) (
              collected g
                (unresolved_in g (class_uris ++ find_owl_classes g) (find_properties g))
                (check_superclass_cycles g)))
        → Refuses g is_netloc (
            if is_empty_graph triples
            then ok empty_graph
            else with_schemes (check_uri_schemes g is_netloc) (
                collected g
                  (unresolved_in g (class_uris ++ find_owl_classes g) (find_properties g))
                  (check_superclass_cycles g)))
    nonempty [] e h = cc
    nonempty (x ∷ xs) e h = h
