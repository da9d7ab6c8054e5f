-- ===== src/Properties/Kept.antt =====
-- What `PropertyService` keeps of the ranges, method by method.
use taxonomy_builder.Common.{
  first_of_each, ℕ, ◌≡◌, refl, ◌∙◌, inl, inr, Bool, true, false, not, Option, none, some, List,
  Text, text, text_eq, ◌==◌, if◌then◌else◌, Bool-cases, arith, Triple, Triple-bind, Triple-fail,
  Triple-after, Triple-before, Triple-pure, [], Ensures, pure,
}
use taxonomy_builder.Feedbacks.Rows.{all-find}
use taxonomy_builder.Models.Vocabulary.{ConceptScheme, Property}
use taxonomy_builder.Models.Activity.{ChangeEvent}
use taxonomy_builder.Models.Session.{Db, Session, request, request_keeps}
use taxonomy_builder.Tracker.{Actor, event, record_change}
use taxonomy_builder.Properties.{
  PropertyCreate, PropertyError, Service, serialize_property, new_property, create_property,
  domain_uris,
}
use taxonomy_builder.Properties.Edit.{
  PropertyUpdate, update_where, delete_where, new_uris, sets_range, or_old, is_set, edited_property,
  unchanged, check_range, erase_property, updated_property, update_found, update_property,
  delete_property, find_property,
}
use taxonomy_builder.Properties.Ranges.{
  has_range, is_ranged, AllRanged, Good, GoodRow, validate_range_keeps, get_project_keeps,
  resolve_keeps, find_new_domain_keeps, insert_property_keeps, write_property_keeps, all-filter,
}

log_keeps :
    (e : ChangeEvent) → Triple {E = PropertyError} Good (record_change e) (λ _. Good) (λ _. Good)
log_keeps e = record { at = λ s h. h }

or_old_unset : {A : Type 0} (o : Option A) (old : A) → is_set o ≡ false → or_old o old ≡ old
or_old_unset none old h = refl
or_old_unset (some x) old h = cc

-- the type and the ranges of two properties of one project are the same
record SameRange (p q : Property) : Type 0 where
  project : q.project_id ≡ p.project_id
  scheme : q.range_scheme_id ≡ p.range_scheme_id
  datatype : q.range_datatype ≡ p.range_datatype
  class : q.range_class ≡ p.range_class
  type : q.property_type ≡ p.property_type

is_ranged_same :
    (schemes : List ConceptScheme) (p q : Property)
    → SameRange p q
    → is_ranged schemes q ≡ is_ranged schemes p
is_ranged_same schemes p q k = rw (k.project, k.scheme, k.datatype, k.class, k.type) refl

-- an update that sets no range leaves it as it is
edited_property_same :
    (u : PropertyUpdate) (p : Property) → sets_range u ≡ false → SameRange p (edited_property u p)
edited_property_same u p h = record {
  project = refl;
  scheme = or_old_unset u.range_scheme_id p.range_scheme_id (ground arith);
  datatype = or_old_unset u.range_datatype p.range_datatype (ground arith);
  class = or_old_unset u.range_class p.range_class (ground arith);
  type = rw h refl;
}

has_range-is_ranged :
    (schemes : List ConceptScheme) (p : Property)
    → has_range schemes p.project_id p.range_scheme_id p.range_datatype p.range_class ≡ true
    → is_ranged schemes p ≡ true
has_range-is_ranged schemes p h = elim (Bool-cases (text_eq p.property_type (text "rdf"))) [
  | inl e ↦ rw e refl
  | inr e ↦ rw e h
]

-- a check that is made only under a condition
when_keeps :
    (b : Bool) (m : Service (Unit {0})) {before after failed : Session → Type 0}
    → (b ≡ true → Triple before m (λ _. after) (λ _. failed))
    → (b ≡ false → (s : Session) → before s → after s)
    → Triple before (if b then m else pure tt) (λ _. after) (λ _. failed)
when_keeps true m checked skipped = checked refl
when_keeps false m checked skipped = record { at = skipped refl }

check_range_keeps :
    (u : PropertyUpdate) (p : Property)
    → Triple (GoodRow p) (check_range u p) (λ _. GoodRow (edited_property u p)) (λ _. Good)
unfolding check_range
check_range_keeps u p =
    when_keeps (sets_range u) _
      (λ _.
        Triple-after _
          (λ _ s (good, h). (good, has_range-is_ranged s.schemes (edited_property u p) h))
          (Triple-before _ (λ s h. h.0)
            (validate_range_keeps p.project_id (or_old u.range_scheme_id p.range_scheme_id)
              (or_old u.range_datatype p.range_datatype) (or_old u.range_class p.range_class))))
      (λ e s (good, h).
        (good, is_ranged_same s.schemes p (edited_property u p) (edited_property_same u p e) ∙ h))

module _ (actor : Actor) where
  updated_property_same :
      (u : PropertyUpdate) (p : Property)
      → SameRange (edited_property u p) (updated_property actor u p)
  updated_property_same u p = elim (Bool-cases (unchanged p (edited_property u p))) [
    | inl e ↦ record {
      project = rw e refl;
      scheme = rw e refl;
      datatype = rw e refl;
      class = rw e refl;
      type = rw e refl;
    }
    | inr e ↦ record {
      project = rw e refl;
      scheme = rw e refl;
      datatype = rw e refl;
      class = rw e refl;
      type = rw e refl;
    }
  ]

  create_keeps :
      (new_id project_id : ℕ) (property_in : PropertyCreate)
      → Triple Good (create_property actor new_id project_id property_in) (λ _. Good) (λ _. Good)
  unfolding create_property
  create_keeps new_id project_id property_in =
      Triple-bind _ _ (get_project_keeps project_id) λ project.
        Triple-bind _ _ (resolve_keeps Good project_id property_in.domain_class_uris) λ classes.
          Triple-bind _ _
            (validate_range_keeps project_id property_in.range_scheme_id property_in.range_datatype
              property_in.range_class)
            λ _.
              Triple-bind _ _
                (Triple-before _
                  (λ s (good, h). (
                    good,
                    has_range-is_ranged s.schemes
                        (new_property actor new_id project_id project property_in) h,
                  ))
                  (insert_property_keeps (new_property actor new_id project_id project property_in)
                    classes))
                λ _.
                  Triple-bind _ _
                    (log_keeps (
                      event actor project_id (text "property") new_id (text "create") none
                        (some (
                          serialize_property
                            (new_property actor new_id project_id project property_in)
                            (first_of_each [] property_in.domain_class_uris)))
                        none))
                    λ _. Triple-pure (new_property actor new_id project_id project property_in)

  update_found_keeps :
      (u : PropertyUpdate) (old : List Text) (p : Property)
      → Triple (GoodRow p) (update_found actor u old p) (λ _. Good) (λ _. Good)
  unfolding update_found
  update_found_keeps u old p = Triple-bind _ _ (check_range_keeps u p) λ _.
      Triple-bind _ _
        (Triple-fail _ (λ e s h. h.0)
          (find_new_domain_keeps (GoodRow (edited_property u p)) p.project_id u.domain_class_uris))
        λ classes.
          Triple-bind _ _
            (Triple-before _
              (λ s (good, h). (
                good,
                is_ranged_same s.schemes (edited_property u p) (updated_property actor u p)
                      (updated_property_same u p)
                    ∙ h,
              ))
              (write_property_keeps (updated_property actor u p) classes))
            λ _.
              Triple-bind _ _
                (log_keeps (
                  event actor p.project_id (text "property") p.id (text "update")
                    (some (serialize_property p old))
                    (some (
                      serialize_property (updated_property actor u p)
                        (new_uris u.domain_class_uris old)))
                    none))
                λ _. Triple-pure (some (updated_property actor u p))

  update_keeps :
      (property_id : ℕ) (u : PropertyUpdate)
      → Triple Good (update_property actor property_id u) (λ _. Good) (λ _. Good)
  unfolding update_property
  update_keeps property_id u = record {
    at = λ s h. go s (find_property s property_id) (domain_uris s.tables property_id) refl h;
  }
    where
      go :
          (s : Session) (found : Option Property) (old : List Text)
          → find_property s property_id ≡ found
          → Good s
          → Ensures
              (λ _. Good)
              (λ _. Good)
              (update_where actor u old found s).0
              (update_where actor u old found s).1
      go s none old e h = h
      go s (some p) old e h =
          (update_found_keeps u old p).at s
            (h, all-find (is_ranged s.schemes) (λ q. q.id == property_id) s.properties p h.0 e)

  delete_keeps :
      (property_id : ℕ) → Triple Good (delete_property actor property_id) (λ _. Good) (λ _. Good)
  unfolding delete_property erase_property
  delete_keeps property_id = record {
    at = λ s h. go s (find_property s property_id) (domain_uris s.tables property_id) h;
  }
    where
      go :
          (s : Session) (found : Option Property) (old : List Text)
          → Good s
          → Ensures
              (λ _. Good)
              (λ _. Good)
              (delete_where actor old found s).0
              (delete_where actor old found s).1
      go s none old h = h
      go s (some p) old h =
          (all-filter (is_ranged s.schemes) (λ q. not (q.id == p.id)) s.properties h.0, h.1)

  -- Where every property that is not an imported rdf:Property has exactly one range, and a scheme of
  -- its own project if the range is a scheme, this is so after creating, updating and deleting a
  -- property, whatever the outcome.
  pub write-AllRanged :
      (db : Db) (new_id project_id property_id : ℕ) (property_in : PropertyCreate)
      (u : PropertyUpdate)
      → AllRanged db
      → AllRanged (request (create_property actor new_id project_id property_in) db).1
        × AllRanged (request (update_property actor property_id u) db).1
        × AllRanged (request (delete_property actor property_id) db).1
  write-AllRanged db new_id project_id property_id property_in u h = (
    request_keeps AllRanged _ (create_keeps new_id project_id property_in) db h,
    request_keeps AllRanged _ (update_keeps property_id u) db h,
    request_keeps AllRanged _ (delete_keeps property_id) db h,
  )
