-- ===== src/Versions/Pattern.antt =====
-- What the pattern and the validator of a publish request let through.
use taxonomy_builder.Common.{
  ℕ, zero, ◌≡◌, refl, sym, ◌∙◌, ap, subst, inl, inr, Bool, true, false, not, ◌&&◌, [], ◌∷◌, ◌++◌,
  Text, ◌==◌, ==_iff, if◌then◌else◌, all, ok, raise, Bool-cases, arith,
}
use taxonomy_builder.Common.Decimal.{is_digit}
use taxonomy_builder.Versions.{
  Place, at_start, in_first, at_dot, in_part, at_dash, at_p, at_r, at_e, in_number, stuck, run,
  accepts, matches_version, is_suffix, has_suffix, split_pre, PublishRequest, RequestError,
  validate_request,
}
use taxonomy_builder.Versions.Keys.{
  free_of, pre, free_of-digits, free_of-cons, split_pre_free, split_pre-append,
}

run_stuck : (t : Text) → accepts (run stuck t) ≡ false
unfolding run
run_stuck [] = refl
run_stuck (c ∷ t) = run_stuck t

run_number : (t : Text) → accepts (run in_number t) ≡ true → all is_digit t ≡ true
unfolding run
run_number [] h = refl
run_number (c ∷ t) h = elim (Bool-cases (is_digit c)) [
  | inl e ↦ ground (arith, run_number t (rw e at h))
  | inr e ↦ absurd (ground (arith, run_stuck t, rw e at h))
]

-- digits after a dash and `pre`
record Tail (t : Text) : Type 0 where
  digit : ℕ
  digits : Text
  all_digits : all is_digit (digit ∷ digits) ≡ true
  same : t ≡ 112 ∷ 114 ∷ 101 ∷ digit ∷ digits

branch :
    (b : Bool) (next : Place) (t : Text)
    → accepts (run (if b then next else stuck) t) ≡ true
    → (b ≡ true) × (accepts (run next t) ≡ true)
branch true next t h = (refl, h)
branch false next t h = absurd (ground (arith, run_stuck t))

expect_char :
    (want : ℕ) (next : Place) (c : ℕ) (t : Text)
    → accepts (run (if c == want then next else stuck) t) ≡ true
    → (c ≡ want) × (accepts (run next t) ≡ true)
expect_char want next c t h =
    let (e, rest) = branch (c == want) next t h in ((==_iff c want).0 e, rest)

all_digits : (n : ℕ) (t : Text) → accepts (run at_e (n ∷ t)) ≡ true → all is_digit (n ∷ t) ≡ true
unfolding run
all_digits n t h = elim (Bool-cases (is_digit n)) [
  | inl e ↦ ground (arith, run_number t (rw e at h))
  | inr e ↦ absurd (ground (arith, run_stuck t, rw e at h))
]

run_dash : (t : Text) → accepts (run at_dash t) ≡ true → Tail t
unfolding run
run_dash [] h = absurd (ground arith)
run_dash (c ∷ []) h = absurd (ground (arith, (expect_char 112 at_p c [] h).1))
run_dash (c ∷ d ∷ []) h =
    absurd (ground (arith, (expect_char 114 at_r d [] (expect_char 112 at_p c (d ∷ []) h).1).1))
run_dash (c ∷ d ∷ e ∷ []) h = absurd (ground arith)
run_dash (c ∷ d ∷ e ∷ n ∷ t) h =
    let (p, h1) = expect_char 112 at_p c (d ∷ e ∷ n ∷ t) h in
    let (q, h2) = expect_char 114 at_r d (e ∷ n ∷ t) h1 in
    let (r, h3) = expect_char 101 at_e e (n ∷ t) h2 in
    record { digit = n; digits = t; all_digits = all_digits n t h3; same = cc (p, q, r) }

-- no dash at all, or a base without a dash, `-pre` and digits
data Parts (t : Text) : Type 0 where
  plain : free_of 45 t ≡ true → Parts t
  pre_release :
      (base : Text) (digit : ℕ) (digits : Text)
      → free_of 45 base ≡ true
      → all is_digit (digit ∷ digits) ≡ true
      → t ≡ base ++ pre ++ digit ∷ digits
      → Parts t

Parts-cons : (c : ℕ) (t : Text) → (c == 45) ≡ false → Parts t → Parts (c ∷ t)
Parts-cons c t ne (plain h) = plain (rw ne h)
Parts-cons c t ne (pre_release base digit digits h a e) =
    pre_release (c ∷ base) digit digits (rw ne h) a (ap (λ l. c ∷ l) e)

Parts-dash : (t : Text) → Tail t → Parts (45 ∷ t)
Parts-dash t tail =
    pre_release [] tail.digit tail.digits refl tail.all_digits (ap (λ l. 45 ∷ l) tail.same)

digit_dash : (c : ℕ) → is_digit c ≡ true → (c == 45) ≡ false
unfolding is_digit
digit_dash c h = ground arith

-- the places before a dash
data Front : Place → Type 0 where
  front_start : Front at_start
  front_first : Front in_first
  front_dot : Front at_dot
  front_part : Front in_part

Front-Parts : {s : Place} → Front s → (t : Text) → accepts (run s t) ≡ true → Parts t
unfolding run
Front-Parts f [] h = plain refl
Front-Parts front_start (c ∷ t) h =
    let (e, rest) = branch (is_digit c) in_first t h in
    Parts-cons c t (digit_dash c e) (Front-Parts front_first t rest)
Front-Parts front_first (c ∷ t) h = elim (Bool-cases (is_digit c)) [
  | inl e ↦ Parts-cons c t (digit_dash c e) (Front-Parts front_first t (rw e at h))
  | inr e ↦
      let (is_dot, rest) = branch (c == 46) at_dot t (rw e at h) in
      Parts-cons c t (ground arith) (Front-Parts front_dot t rest)
]
Front-Parts front_dot (c ∷ t) h =
    let (e, rest) = branch (is_digit c) in_part t h in
    Parts-cons c t (digit_dash c e) (Front-Parts front_part t rest)
Front-Parts front_part (c ∷ t) h = elim (Bool-cases (is_digit c)) [
  | inl e ↦ Parts-cons c t (digit_dash c e) (Front-Parts front_part t (rw e at h))
  | inr e ↦ elim (Bool-cases (c == 46)) [
    | inl is_dot ↦ Parts-cons c t (ground arith) (Front-Parts front_dot t (rw (e, is_dot) at h))
    | inr other ↦
        let (is_dash, rest) = branch (c == 45) at_dash t (rw (e, other) at h) in
        subst (λ d. Parts (d ∷ t)) (sym ((==_iff c 45).0 is_dash)) (Parts-dash t (run_dash t rest))
  ]
]

is_suffix_free : (c : ℕ) (t : Text) → (c == 45) ≡ false → is_suffix (c ∷ t) ≡ false
is_suffix_free c [] h = refl
is_suffix_free c (d ∷ []) h = refl
is_suffix_free c (d ∷ e ∷ []) h = refl
is_suffix_free c (d ∷ e ∷ f ∷ []) h = refl
is_suffix_free c (d ∷ e ∷ f ∷ n ∷ t) h = ground arith

has_suffix_free : (t : Text) → free_of 45 t ≡ true → has_suffix t ≡ false
unfolding has_suffix
has_suffix_free [] h = refl
has_suffix_free (c ∷ t) h =
    let (here, rest) = free_of-cons 45 c t h in
    ground (arith, is_suffix_free c t here, has_suffix_free t rest)

has_suffix-pre :
    (base : Text) (digit : ℕ) (digits : Text)
    → all is_digit (digit ∷ digits) ≡ true
    → has_suffix (base ++ pre ++ digit ∷ digits) ≡ true
unfolding has_suffix
has_suffix-pre [] digit digits a = rw a refl
has_suffix-pre (c ∷ base) digit digits a = ground (arith, has_suffix-pre base digit digits a)

-- what the sort key reads: the version as it is, or a base and a number
abbrev pub Reads : Bool → Text → Type 0
Reads false t = split_pre zero t ≡ t ∷ []
Reads true t =
    (base : Text) × (number : Text) × (t ≡ base ++ pre ++ number)
    × (split_pre zero t ≡ base ∷ number ∷ [])
    × (all is_digit number ≡ true)

Parts-Reads : (t : Text) → Parts t → Reads (has_suffix t) t
unfolding is_digit
Parts-Reads t (plain h) = rw (has_suffix_free t h) (split_pre_free t h)
Parts-Reads t (pre_release base digit digits h a e) =
    subst (λ b. Reads b t) (sym (ap has_suffix e ∙ has_suffix-pre base digit digits a))
      (
        base,
        digit ∷ digits,
        e,
        ap (split_pre zero) e
            ∙ split_pre-append base (digit ∷ digits) h
            ∙ ap (λ pieces. base ∷ pieces)
                (split_pre_free (digit ∷ digits) (free_of-digits 45 (digit ∷ digits) refl a)),
        a,
      )

flag_of :
    (request : PublishRequest) (matches suffix : Bool)
    → (if matches
        then if request.pre_release && not suffix
          then raise RequestError.suffix_missing
          else if not request.pre_release && suffix
          then raise RequestError.suffix_not_allowed
          else ok request
        else raise RequestError.string_pattern_mismatch)
      ≡ ok request
    → (matches ≡ true) × (suffix ≡ request.pre_release)
flag_of request matches suffix h = ground arith

-- In a request that is let through, the flag says how the sort key reads the version: a release is
-- read whole, and a pre-release as a base and a number.
pub validate_request-Reads :
    (request : PublishRequest)
    → validate_request request ≡ ok request
    → Reads request.pre_release request.version
unfolding validate_request matches_version
validate_request-Reads request h =
    let (accepted, flag) =
      flag_of request (matches_version request.version) (has_suffix request.version) h in
    subst (λ b. Reads b request.version) flag
      (Parts-Reads request.version (Front-Parts front_start request.version accepted))
