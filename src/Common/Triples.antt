-- ===== src/Common/Triples.antt =====
-- Pre- and postconditions of actions: `after` holds when the action returns, `failed` when it raises.
use mathlib.Core.Path.{◌≡◌, refl}
use mathlib.Core.Bool.{Bool, true, false}
use mathlib.Core.Option.{Option, none, some}
use taxonomy_builder.Common.Monad.{
  Result, ok, raise, Exec, or_raise, raise_if, ◌>>=◌, pure, continue,
}

module _ {S E A : Type 0} where
  abbrev pub Ensures : (A → S → Type 0) → (E → S → Type 0) → Result E A → S → Type 0
  Ensures after failed (ok a) s = after a s
  Ensures after failed (raise e) s = failed e s

  pub record Triple (before : S → Type 0) (m : Exec S E A) (after : A → S → Type 0)
      (failed : E → S → Type 0) : Type 0 where
    pub at : (s : S) → before s → Ensures after failed (m s).0 (m s).1

  pub Ensures-always :
      (P : S → Type 0) (r : Result E A) (s : S) → Ensures (λ _. P) (λ _. P) r s → P s
  Ensures-always P (ok a) s h = h
  Ensures-always P (raise e) s h = h

  -- a weaker claim about the failures
  pub Triple-fail :
      (m : Exec S E A) {before : S → Type 0} {after : A → S → Type 0}
      {failed failed' : E → S → Type 0}
      → ((e : E) (s : S) → failed e s → failed' e s)
      → Triple before m after failed
      → Triple before m after failed'
  Triple-fail m {after = after} {failed = failed} {failed' = failed'} weaker t = record {
    at = λ s h. go (m s).0 (m s).1 (t.at s h);
  }
    where
      go : (r : Result E A) (s : S) → Ensures after failed r s → Ensures after failed' r s
      go (ok a) s h = h
      go (raise e) s h = weaker e s h

  pub Triple-after :
      (m : Exec S E A) {before : S → Type 0} {after after' : A → S → Type 0}
      {failed : E → S → Type 0}
      → ((a : A) (s : S) → after a s → after' a s)
      → Triple before m after failed
      → Triple before m after' failed
  Triple-after m {after = after} {after' = after'} {failed = failed} weaker t = record {
    at = λ s h. go (m s).0 (m s).1 (t.at s h);
  }
    where
      go : (r : Result E A) (s : S) → Ensures after failed r s → Ensures after' failed r s
      go (ok a) s h = weaker a s h
      go (raise e) s h = h

  -- a stronger precondition
  pub Triple-before :
      (m : Exec S E A) {before before' : S → Type 0} {after : A → S → Type 0}
      {failed : E → S → Type 0}
      → ((s : S) → before' s → before s)
      → Triple before m after failed
      → Triple before' m after failed
  Triple-before m stronger t = record { at = λ s h. t.at s (stronger s h) }

  pub Triple-pure :
      (a : A) {after : A → S → Type 0} {failed : E → S → Type 0}
      → Triple (after a) (pure a) after failed
  Triple-pure a = record { at = λ s h. h }

  pub Triple-or_raise :
      (P : S → Type 0) (e : E) (o : S → Option A)
      → Triple P (λ s. or_raise e (o s) s) (λ a s. P s × (o s ≡ some a)) (λ _. P)
  Triple-or_raise P e o = record { at = λ s h. go s (o s) refl h }
    where
      go :
          (s : S) (v : Option A)
          → o s ≡ v
          → P s
          → Ensures (λ a s. P s × (o s ≡ some a)) (λ _. P) (or_raise e v s).0 (or_raise e v s).1
      go s none q h = h
      go s (some a) q h = (h, q)

module _ {S E : Type 0} where
  pub Triple-raise_if :
      (P : S → Type 0) (b : Bool) (e : E)
      → Triple P (raise_if b e) (λ _ s. P s × (b ≡ false)) (λ _. P)
  Triple-raise_if P true e = record { at = λ s h. h }
  Triple-raise_if P false e = record { at = λ s h. (h, refl) }

module _ {S E A B : Type 0} where
  Ensures-continue :
      (f : A → Exec S E B) (r : Result E A) (s : S) (mid : A → S → Type 0) (after : B → S → Type 0)
      (failed : E → S → Type 0)
      → Ensures mid failed r s
      → ((a : A) → Triple (mid a) (f a) after failed)
      → Ensures after failed (continue r f s).0 (continue r f s).1
  Ensures-continue f (ok a) s mid after failed h k = (k a).at s h
  Ensures-continue f (raise e) s mid after failed h k = h

  pub Triple-bind :
      (m : Exec S E A) (f : A → Exec S E B) {before : S → Type 0} {mid : A → S → Type 0}
      {after : B → S → Type 0} {failed : E → S → Type 0}
      → Triple before m mid failed
      → ((a : A) → Triple (mid a) (f a) after failed)
      → Triple before (m >>= f) after failed
  Triple-bind m f {mid = mid} {after = after} {failed = failed} t k = record {
    at = λ s h. Ensures-continue f (m s).0 (m s).1 mid after failed (t.at s h) k;
  }
