-- ===== src/Rdf/Cycles/Paths.antt =====
-- Paths of superclasses, and how a status changes.
use taxonomy_builder.Common.{
  ℕ, ◌+◌, ◌≤◌, ◌≡◌, true, Option, none, some, List, [], ◌∷◌, ◌++◌, Text, contains_text, arith,
}
use taxonomy_builder.Common.Dict.{lookup, put}
use taxonomy_builder.Rdf.Cycles.{
  Status, unvisited, in_progress, complete, Progress, Superclasses, parents_of,
}

abbrev pub is_unvisited : Status → ℕ
is_unvisited unvisited = 1
is_unvisited in_progress = 0
is_unvisited complete = 0

-- how many classes are still to be visited
abbrev pub left : List (Text × Status) → ℕ
left [] = 0
left ((k, s) ∷ m) = is_unvisited s + left m

pub left-put :
    (k : Text) (s : Status) (m : List (Text × Status)) (old : Status)
    → lookup k m ≡ some old
    → left (put k s m) + is_unvisited old ≡ left m + is_unvisited s
left-put k s [] old h = cc
left-put k s ((j, w) ∷ m) old h = ground (arith, left-put k s m old)

module _ (m : Superclasses) where
  -- the second class is among the superclasses of the first, and both are classes of the file
  pub record Edge (a b : Text) : Type 0 where
    pub listed : contains_text (parents_of m a) b ≡ true
    pub uris : List Text
    pub described : lookup b m ≡ some uris

  pub data Reach : Text → Text → Type 0 where
    here : {a : Text} → Reach a a
    next : {a b c : Text} → Reach a b → Edge b c → Reach a c

  pub record Cycle (a : Text) : Type 0 where
    pub b : Text
    pub first : Edge a b
    pub back : Reach b a

abbrev pub At : Progress → Text → Status → Type 0
At st x s = lookup x st.status ≡ some s

abbrev pub All : (Text × Text → Type 0) → List (Text × Text) → Type 0
All P [] = Unit {0}
All P (x ∷ xs) = P x × All P xs

pub All-append :
    (P : Text × Text → Type 0) (xs : List (Text × Text)) (x : Text × Text)
    → All P xs
    → P x
    → All P (xs ++ x ∷ [])
All-append P [] x a h = (h, tt)
All-append P (y ∷ xs) x (b, a) h = (b, All-append P xs x a h)

-- what the search returns, if it returns
abbrev pub Returns : (Progress → Type 0) → Option Progress → Type 0
Returns P none = ⊥
Returns P (some st) = P st

module _ (m : Superclasses) where
  -- an edge that closes a cycle
  abbrev pub Closes : Text × Text → Type 0
  Closes (a, b) = Edge m a b × Reach m b a

  pub record Inv (st : Progress) : Type 0 where
    pub sound : All Closes st.cycle_edges
    pub closed :
        st.cycle_edges ≡ [] → (x y : Text) → At st x complete → Edge m x y → At st y complete
    pub acyclic : st.cycle_edges ≡ [] → (x : Text) → At st x complete → ¬ (Cycle m x)
    pub known : (x : Text) (uris : List Text) → lookup x m ≡ some uris → (s : Status) × At st x s
    pub inside : (x : Text) (s : Status) → At st x s → (uris : List Text) × (lookup x m ≡ some uris)

  pub record Grows (st st' : Progress) : Type 0 where
    pub gray : (x : Text) → At st x in_progress → At st' x in_progress
    pub gray_back : (x : Text) → At st' x in_progress → At st x in_progress
    pub done : (x : Text) → At st x complete → At st' x complete
    pub fewer : left st'.status ≤ left st.status
    pub clean : st'.cycle_edges ≡ [] → st.cycle_edges ≡ []

  -- the classes in progress lead to the node
  abbrev pub OnPath : Progress → Text → Type 0
  OnPath st node = (x : Text) → At st x in_progress → Reach m x node

pub Grows-refl : (m : Superclasses) (st : Progress) → Grows m st st
Grows-refl m st = record {
  gray = λ x h. h;
  gray_back = λ x h. h;
  done = λ x h. h;
  fewer = omega arith;
  clean = λ h. h;
}

pub Grows-trans : (m : Superclasses) (a b c : Progress) → Grows m a b → Grows m b c → Grows m a c
Grows-trans m a b c g h = record {
  gray = λ x k. h.gray x (g.gray x k);
  gray_back = λ x k. g.gray_back x (h.gray_back x k);
  done = λ x k. h.done x (g.done x k);
  fewer = omega (arith, g.fewer, h.fewer);
  clean = λ k. g.clean (h.clean k);
}

-- along a path from a complete class all is complete
pub Reach-complete :
    (m : Superclasses) (st : Progress) {a b : Text}
    → ((x y : Text) → At st x complete → Edge m x y → At st y complete)
    → At st a complete
    → Reach m a b
    → At st b complete
Reach-complete m st closed h here = h
Reach-complete m st closed h (next {b = b} {c = c} r e) =
    closed b c (Reach-complete m st closed h r) e
