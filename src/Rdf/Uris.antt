-- ===== src/Rdf/Uris.antt =====
-- File formats, and the parts of a URI.
use taxonomy_builder.Common.{
  ℕ, ◌+◌, Bool, true, false, not, ◌&&◌, ◌||◌, Option, none, some, List, [], ◌∷◌, ◌++◌, Text, text,
  text_eq, is_empty, rstrip_slash, leb, ◌==◌, if◌then◌else◌, any, all,
}
use taxonomy_builder.Rdf.Graph.{xsd_ns}

-- what is behind a prefix, if the string starts with it
abbrev pub behind : Text → Text → Option Text
behind [] t = some t
behind (p ∷ prefix) [] = none
behind (p ∷ prefix) (c ∷ t) = if p == c then behind prefix t else none

-- `s.endswith(suffix)`
abbrev pub ends_with : Text → Text → Bool
ends_with [] suffix = is_empty suffix
ends_with (c ∷ s) suffix = text_eq (c ∷ s) suffix || ends_with s suffix

-- `s.split(c)[-1]`
abbrev pub last_part : ℕ → Text → Text → Text
last_part separator part [] = part
last_part separator part (c ∷ s) =
    last_part separator (if c == separator then [] else part ++ c ∷ []) s

-- `FORMAT_MAP`
abbrev pub format_map : List (Text × Text)
format_map =
    (text ".ttl", text "turtle")
    ∷ (text ".turtle", text "turtle")
    ∷ (text ".rdf", text "xml")
    ∷ (text ".xml", text "xml")
    ∷ (text ".owl", text "xml")
    ∷ (text ".jsonld", text "json-ld")
    ∷ (text ".json", text "json-ld")
    ∷ (text ".nt", text "nt")
    ∷ (text ".n3", text "n3")
    ∷ []

abbrev find_format : Text → List (Text × Text) → Option Text
find_format filename [] = none
find_format filename ((ext, fmt) ∷ formats) =
    if ends_with filename ext then some fmt else find_format filename formats

-- `detect_format`, with the name in lower case; `none` is InvalidRDFError
unfoldable pub detect_format : (Text → Text) → Text → Option Text
detect_format lower filename = find_format (lower filename) format_map

-- `get_identifier_from_uri`
unfoldable pub get_identifier_from_uri : Text → Text
get_identifier_from_uri u =
    if any (λ c. c == b'#') u then last_part b'#' [] u else last_part b'/' [] (rstrip_slash u)

abbrev pub is_some : Option Text → Bool
is_some none = false
is_some (some t) = true

unfoldable pub is_xsd_type : Text → Bool
is_xsd_type u = is_some (behind xsd_ns u)

abbrev xsd_name : Text → Option Text → Text
xsd_name u none = u
xsd_name u (some name) = text "xsd:" ++ name

unfoldable pub abbreviate_xsd : Text → Text
abbreviate_xsd u = xsd_name u (behind xsd_ns u)

-- `urlparse` of the standard library: the scheme, and the location that may be refused
abbrev is_letter : ℕ → Bool
is_letter c = leb b'a' c && leb c b'z' || leb b'A' c && leb c b'Z'

abbrev is_scheme_char : ℕ → Bool
is_scheme_char c = is_letter c || leb b'0' c && leb c b'9' || c == b'+' || c == b'-' || c == b'.'

abbrev skip_controls : Text → Text
skip_controls [] = []
skip_controls (c ∷ s) = let rest = skip_controls s in if leb c 32 then rest else c ∷ s

abbrev drop_breaks : Text → Text
drop_breaks [] = []
drop_breaks (c ∷ s) =
    let rest = drop_breaks s in if c == 9 || c == 10 || c == 13 then rest else c ∷ rest

abbrev after_char : ℕ → Option Text → Option Text
after_char c none = none
after_char c (some t) = some (c ∷ t)

-- what is before the first colon
abbrev before_colon : Text → Option Text
before_colon [] = none
before_colon (c ∷ s) =
    let rest = after_char c (before_colon s) in if c == b':' then some [] else rest

abbrev lower_ascii : Text → Text
lower_ascii [] = []
lower_ascii (c ∷ s) = (if leb b'A' c && leb c b'Z' then c + 32 else c) ∷ lower_ascii s

abbrev scheme_text : Option Text → Text
scheme_text none = []
scheme_text (some []) = []
scheme_text (some (c ∷ s)) =
    if is_letter c && all is_scheme_char (c ∷ s) then lower_ascii (c ∷ s) else []

unfoldable pub uri_scheme : Text → Text
uri_scheme u = scheme_text (before_colon (drop_breaks (skip_controls u)))

-- what is behind the first colon
abbrev behind_colon : Text → Text
behind_colon [] = []
behind_colon (c ∷ s) = let rest = behind_colon s in if c == b':' then s else rest

-- what is left when the scheme, if there is one, is split off
abbrev behind_scheme : (scheme : Text) → Text → Text
behind_scheme [] u = u
behind_scheme (c ∷ scheme) u = behind_colon u

abbrev before_path : Text → Text
before_path [] = []
before_path (c ∷ s) =
    let rest = before_path s in if c == b'/' || c == b'?' || c == b'#' then [] else c ∷ rest

abbrev location_of : Option Text → Text
location_of none = []
location_of (some rest) = before_path rest

-- `netloc`
unfoldable pub location : Text → Text
unfolding uri_scheme
location u =
    location_of (behind (text "//") (behind_scheme (uri_scheme u) (drop_breaks (skip_controls u))))

abbrev is_ascii : Text → Bool
is_ascii = all (λ c. leb c 127)

-- Brackets have to stand in the location on both sides or on none. Where there are some, the
-- `ipaddress` module, and where it is not all ASCII, the NFKC form of Unicode decides on the rest:
-- `is_netloc` stands for both.
abbrev is_location : (is_netloc : Text → Bool) → Text → Bool
is_location is_netloc t =
    let opens = any (λ c. c == b'[') t in
    let closes = any (λ c. c == b']') t in
    if opens then closes && is_netloc t else not closes && (is_ascii t || is_netloc t)

-- `urlparse(uri)` returns; otherwise it raises ValueError
unfoldable pub is_parsed : (is_netloc : Text → Bool) → Text → Bool
unfolding location
is_parsed is_netloc u = is_location is_netloc (location u)
