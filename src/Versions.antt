-- ===== src/Versions.antt =====
-- Version strings: the pattern and the request of backend/src/taxonomy_builder/schemas/publishing.py,
-- and the sort key of models/published_version.py.
pub mod Keys
pub mod Order
pub mod Pattern
use taxonomy_builder.Common.{
  ℕ, zero, suc, ◌+◌, ◌^◌, ◌-◌, Bool, true, false, not, ◌&&◌, ◌||◌, Option, none, some, List, ◌≡◌,
  refl, [], ◌∷◌, ◌++◌, Text, text, ltb, ◌==◌, all, Result, ok, raise, if◌then◌else◌, map,
}
use taxonomy_builder.Common.Decimal.{is_digit, int_of, decimal}

-- where a match of VERSION_PATTERN stands: `^\d+(\.\d+)+(-pre\d+)?$`
pub data Place : Type 0 where
  at_start in_first at_dot in_part at_dash at_p at_r at_e in_number stuck : Place

abbrev pub digit_or : Place → Place → ℕ → Place
digit_or next other c = if is_digit c then next else other

abbrev pub expect : ℕ → Place → ℕ → Place
expect want next c = if c == want then next else Place.stuck

unfoldable pub step : Place → ℕ → Place
unfolding is_digit
step at_start c = digit_or in_first stuck c
step in_first c = digit_or in_first (expect 46 at_dot c) c
step at_dot c = digit_or in_part stuck c
step in_part c = digit_or in_part (if c == 46 then at_dot else expect 45 at_dash c) c
step at_dash c = expect 112 at_p c
step at_p c = expect 114 at_r c
step at_r c = expect 101 at_e c
step at_e c = digit_or in_number stuck c
step in_number c = digit_or in_number stuck c
step stuck c = stuck

abbrev pub accepts : Place → Bool
accepts in_part = true
accepts in_number = true
accepts _ = false

unfoldable pub run : Place → Text → Place
unfolding step
run place [] = place
run place (c ∷ t) = run (step place c) t

unfoldable pub matches_version : Text → Bool
unfolding run
matches_version t = accepts (run at_start t)

-- `"-pre"` at the front
abbrev pub starts_pre : Text → Bool
starts_pre (a ∷ b ∷ c ∷ d ∷ t) = a == 45 && b == 112 && c == 114 && d == 101
starts_pre _ = false

-- `-pre\d+$` at the front
abbrev pub is_suffix : Text → Bool
is_suffix (a ∷ b ∷ c ∷ d ∷ n ∷ t) = starts_pre (a ∷ b ∷ c ∷ d ∷ []) && all is_digit (n ∷ t)
is_suffix _ = false

-- `re.search(PRE_RELEASE_SUFFIX, version)`
unfoldable pub has_suffix : Text → Bool
unfolding is_digit
has_suffix [] = false
has_suffix (c ∷ t) = is_suffix (c ∷ t) || has_suffix t

-- put a character before the first piece
abbrev pub push : ℕ → List Text → List Text
push c [] = (c ∷ []) ∷ []
push c (piece ∷ pieces) = (c ∷ piece) ∷ pieces

-- `s.split("-pre")`; `skip` counts the characters of a separator that are still to be passed
unfoldable pub split_pre : ℕ → Text → List Text
split_pre skip [] = [] ∷ []
split_pre (suc skip) (c ∷ t) = split_pre skip t
split_pre zero (c ∷ t) =
    let pieces = push c (split_pre zero t) in
    let after = split_pre 3 t in if starts_pre (c ∷ t) then [] ∷ after else pieces

-- `s.split(c)`
unfoldable pub split_on : ℕ → Text → List Text
split_on sep [] = [] ∷ []
split_on sep (c ∷ t) =
    let pieces = split_on sep t in if c == sep then [] ∷ pieces else push c pieces

-- `string_to_array(s, '.')`
abbrev pub string_to_array : Text → List Text
string_to_array [] = []
string_to_array (c ∷ t) = split_on 46 (c ∷ t)

-- a 32-bit integer of the database, where `none` is its error
abbrev pub to_int4 : Option ℕ → Option ℕ
to_int4 none = none
to_int4 (some n) = if ltb n (2 ^ 31) then some n else none

-- `::int`
pub cast : Text → Option ℕ
unfolding int_of
cast t = to_int4 (int_of t)

abbrev pub cons_option : Option ℕ → Option (List ℕ) → Option (List ℕ)
cons_option (some n) (some ns) = some (n ∷ ns)
cons_option _ _ = none

unfoldable pub casts : List Text → Option (List ℕ)
unfolding cast
casts [] = some []
casts (t ∷ ts) = let rest = casts ts in cons_option (cast t) rest

abbrev pub snoc_option : Option (List ℕ) → Option ℕ → Option (List ℕ)
snoc_option (some ns) (some n) = some (ns ++ n ∷ [])
snoc_option _ _ = none

-- the key from the pieces around "-pre": `version LIKE '%-pre%'` where there is more than one
abbrev pub key_from : List Text → Option (List ℕ)
key_from [] = none
key_from (release ∷ []) = snoc_option (casts (string_to_array release)) (some (2 ^ 31 - 1))
key_from (base ∷ pre ∷ more) = snoc_option (casts (string_to_array base)) (cast pre)

unfoldable pub version_sort_key : Text → Option (List ℕ)
unfolding split_pre split_on casts cast
version_sort_key version = key_from (split_pre zero version)

-- how PostgreSQL orders arrays
unfoldable pub key_ltb : List ℕ → List ℕ → Bool
key_ltb [] [] = false
key_ltb [] (y ∷ ys) = true
key_ltb (x ∷ xs) [] = false
key_ltb (x ∷ xs) (y ∷ ys) = ltb x y || x == y && key_ltb xs ys

-- one key before the other, where there are two
abbrev pub compare_keys : Option (List ℕ) → Option (List ℕ) → Bool
compare_keys (some a) (some b) = key_ltb a b
compare_keys _ _ = false

-- the order of two version strings by their keys
abbrev pub is_before : Text → Text → Bool
is_before v w = compare_keys (version_sort_key v) (version_sort_key w)

-- PublishRequest
pub record PublishRequest : Type 0 where
  pub version : Text
  pub title : Text
  pub notes : Option Text
  pub pre_release : Bool

pub data RequestError : Type 0 where
  string_pattern_mismatch suffix_missing suffix_not_allowed : RequestError

-- the pattern of the field, then `version_matches_pre_release_flag`
unfoldable pub validate_request : PublishRequest → Result RequestError PublishRequest
unfolding matches_version has_suffix
validate_request request =
    if matches_version request.version
    then if request.pre_release && not (has_suffix request.version)
      then raise suffix_missing
      else if not request.pre_release && has_suffix request.version
      then raise suffix_not_allowed
      else ok request
    else raise string_pattern_mismatch
