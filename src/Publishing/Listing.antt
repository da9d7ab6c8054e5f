-- ===== src/Publishing/Listing.antt =====
-- `list_projects_with_latest_version` gives every project its latest finalized version.
use taxonomy_builder.Common.{
  ℕ, ◌≡◌, refl, sym, ◌∙◌, ap, inl, inr, ◌⊎◌, Bool, true, false, not, ◌&&◌, ◌||◌, Option, none, some,
  List, [], ◌∷◌, Text, ◌==◌, if◌then◌else◌, find, any, Bool-cases, arith,
}
use taxonomy_builder.Models.Activity.{PublishedVersion}
use taxonomy_builder.Versions.{key_ltb}
use taxonomy_builder.Versions.Order.{key_ltb_irrefl}
use taxonomy_builder.Publishing.Queries.{
  key_of, in_project, is_finalized_of, insert_desc, order_desc, Listing, finalized_version, fill,
  record_version, record_all, list_projects_with_latest_version,
}
use taxonomy_builder.Publishing.Latest.{In, LatestOf, none_after, none_after_later, key_asym}

-- the entry of a project
abbrev pub lookup : ℕ → Listing → Option (Option Text)
lookup p [] = none
lookup p ((q, t) ∷ entries) = if q == p then some t else lookup p entries

abbrev pub version_of : Option PublishedVersion → Option Text
version_of none = none
version_of (some v) = some v.version

abbrev fill_entry : PublishedVersion → Option (Option Text) → Option Text
fill_entry v none = finalized_version v
fill_entry v (some t) = fill v t

lookup-record_version :
    (p : ℕ) (v : PublishedVersion) (entries : Listing)
    → lookup p (record_version v entries)
      ≡ (if in_project p v then some (fill_entry v (lookup p entries)) else lookup p entries)
lookup-record_version p v [] = refl
lookup-record_version p v ((q, t) ∷ entries) = ground (arith, lookup-record_version p v entries)

-- what the loop makes of a project's entry
abbrev settle : ℕ → List PublishedVersion → Option (Option Text) → Option (Option Text)
settle p [] o = o
settle p (v ∷ rows) o = settle p rows (if in_project p v then some (fill_entry v o) else o)

lookup-record_all :
    (p : ℕ) (rows : List PublishedVersion) (entries : Listing)
    → lookup p (record_all rows entries) ≡ settle p rows (lookup p entries)
unfolding record_all
lookup-record_all p [] entries = refl
lookup-record_all p (v ∷ rows) entries =
    lookup-record_all p rows (record_version v entries)
    ∙ ap (settle p rows) (lookup-record_version p v entries)

settle_full :
    (p : ℕ) (rows : List PublishedVersion) (t : Text)
    → settle p rows (some (some t)) ≡ some (some t)
settle_full p [] t = refl
settle_full p (v ∷ rows) t = elim (Bool-cases (in_project p v)) [
  | inl e ↦ rw e (settle_full p rows t)
  | inr e ↦ rw e (settle_full p rows t)
]

settle_open :
    (p : ℕ) (rows : List PublishedVersion)
    → settle p rows (some none) ≡ some (version_of (find (is_finalized_of p) rows))
settle_open p [] = refl
settle_open p (v ∷ rows) = elim (Bool-cases (in_project p v)) [
  | inl e ↦ elim (Bool-cases v.finalized) [
    | inl f ↦ rw (e, f) (settle_full p rows v.version)
    | inr f ↦ rw (e, f) (settle_open p rows)
  ]
  | inr e ↦ rw e (settle_open p rows)
]

settle_new :
    (p : ℕ) (rows : List PublishedVersion)
    → settle p rows none ≡ (
        if any (in_project p) rows then some (version_of (find (is_finalized_of p) rows)) else none)
settle_new p [] = refl
settle_new p (v ∷ rows) = elim (Bool-cases (in_project p v)) [
  | inl e ↦ elim (Bool-cases v.finalized) [
    | inl f ↦ rw (e, f) (settle_full p rows v.version)
    | inr f ↦ rw (e, f) (settle_open p rows)
  ]
  | inr e ↦ rw e (settle_new p rows)
]

-- no row comes after one that stands before it
abbrev IsOrdered : List PublishedVersion → Type 0
IsOrdered [] = Unit {0}
IsOrdered (v ∷ rows) = (none_after (key_of v) rows ≡ true) × IsOrdered rows

any-insert_desc :
    (f : PublishedVersion → Bool) (v : PublishedVersion) (rows : List PublishedVersion)
    → any f (insert_desc v rows) ≡ (f v || any f rows)
any-insert_desc f v [] = refl
any-insert_desc f v (w ∷ rows) = ground (arith, any-insert_desc f v rows)

any-order_desc :
    (f : PublishedVersion → Bool) (rows : List PublishedVersion)
    → any f (order_desc rows) ≡ any f rows
any-order_desc f [] = refl
any-order_desc f (v ∷ rows) =
    any-insert_desc f v (order_desc rows) ∙ ap (λ b. f v || b) (any-order_desc f rows)

In-insert_desc :
    (x v : PublishedVersion) (rows : List PublishedVersion)
    → In x (insert_desc v rows)
    → (x ≡ v) ⊎ In x rows
In-insert_desc x v [] h = h
In-insert_desc x v (w ∷ rows) h = elim (Bool-cases (key_ltb (key_of v) (key_of w))) [
  | inl e ↦ elim (rw e at h) [
    | inl same ↦ inr (inl same)
    | inr later ↦ elim (In-insert_desc x v rows later) [
      | inl same ↦ inl same
      | inr found ↦ inr (inr found)
    ]
  ]
  | inr e ↦ (rw e at h)
]

In-order_desc :
    (x : PublishedVersion) (rows : List PublishedVersion) → In x (order_desc rows) → In x rows
In-order_desc x [] h = h
In-order_desc x (v ∷ rows) h = elim (In-insert_desc x v (order_desc rows) h) [
  | inl same ↦ inl same
  | inr found ↦ inr (In-order_desc x rows found)
]

insert_desc-IsOrdered :
    (v : PublishedVersion) (rows : List PublishedVersion)
    → IsOrdered rows
    → IsOrdered (insert_desc v rows)
insert_desc-IsOrdered v [] h = (refl, tt)
insert_desc-IsOrdered v (w ∷ rows) (after, rest) =
    elim (Bool-cases (key_ltb (key_of v) (key_of w))) [
      | inl e ↦ rw e (
        ap not (any-insert_desc (λ x. key_ltb (key_of w) (key_of x)) v rows)
            ∙ rw (key_asym (key_of v) (key_of w) e) after,
        insert_desc-IsOrdered v rows rest,
      )
      | inr e ↦ rw e (rw e (none_after_later (key_of v) (key_of w) rows e after), (after, rest))
    ]

order_desc-IsOrdered : (rows : List PublishedVersion) → IsOrdered (order_desc rows)
order_desc-IsOrdered [] = tt
order_desc-IsOrdered (v ∷ rows) =
    insert_desc-IsOrdered v (order_desc rows) (order_desc-IsOrdered rows)

module _ (p : ℕ) where
  no_finalized_after :
      (k : List ℕ) (rows : List PublishedVersion)
      → none_after k rows ≡ true
      → any (λ w. is_finalized_of p w && key_ltb k (key_of w)) rows ≡ false
  no_finalized_after k [] h = refl
  no_finalized_after k (w ∷ rows) h = ground (arith, no_finalized_after k rows)

  LatestOf-skip :
      (v : PublishedVersion) (rows : List PublishedVersion) (o : Option PublishedVersion)
      → is_finalized_of p v ≡ false
      → LatestOf rows p o
      → LatestOf (v ∷ rows) p o
  LatestOf-skip v rows none e h = rw e h
  LatestOf-skip v rows (some w) e (found, final, after) = (inr found, final, rw e after)

  find-LatestOf :
      (rows : List PublishedVersion)
      → IsOrdered rows
      → LatestOf rows p (find (is_finalized_of p) rows)
  find-LatestOf [] h = refl
  find-LatestOf (v ∷ rows) (after, rest) = elim (Bool-cases (is_finalized_of p v)) [
    | inl e ↦ rw e (
      inl refl,
      e,
      ground (arith, key_ltb_irrefl (key_of v), no_finalized_after (key_of v) rows after),
    )
    | inr e ↦
        rw e (LatestOf-skip v rows (find (is_finalized_of p) rows) e (find-LatestOf rows rest))
  ]

  LatestOf-order_desc :
      (rows : List PublishedVersion) (o : Option PublishedVersion)
      → LatestOf (order_desc rows) p o
      → LatestOf rows p o
  LatestOf-order_desc rows none h = sym (any-order_desc _ rows) ∙ h
  LatestOf-order_desc rows (some v) (found, final, after) =
      (In-order_desc v rows found, final, sym (any-order_desc _ rows) ∙ after)

  -- The listing has an entry for the projects that have a version, and the entry is the version
  -- string of a row of the table, a finalized version of the project that no finalized version of the
  -- project comes after; it is empty if no version of the project is finalized.
  pub list_projects-LatestOf :
      (versions : List PublishedVersion)
      → (o : Option PublishedVersion) × (lookup p (list_projects_with_latest_version versions)
          ≡ (if any (in_project p) versions then some (version_of o) else none))
        × LatestOf versions p o
  unfolding list_projects_with_latest_version
  list_projects-LatestOf versions =
      let rows = order_desc versions in
      (
        find (is_finalized_of p) rows,
        lookup-record_all p rows []
            ∙ settle_new p rows
            ∙ ap (λ b. if b then some (version_of (find (is_finalized_of p) rows)) else none)
                (any-order_desc (in_project p) versions),
        LatestOf-order_desc versions (find (is_finalized_of p) rows)
            (find-LatestOf rows (order_desc-IsOrdered versions)),
      )
