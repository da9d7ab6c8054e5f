-- ===== src/Common/Monad.antt =====
-- Methods that change a session and may raise: what was written before a raise stays written.
use mathlib.Core.Bool.{Bool, true, false}
use mathlib.Core.Option.{Option, none, some}

pub data Result (E A : Type 0) : Type 0 where
  ok : A → Result E A
  raise : E → Result E A

abbrev pub Exec : Type 0 → Type 0 → Type 0 → Type 0
Exec S E A = S → Result E A × S

module _ {S E A : Type 0} where
  abbrev pub pure : A → Exec S E A
  pure a s = (ok a, s)

  abbrev pub throw : E → Exec S E A
  throw e s = (raise e, s)

  -- `if result is None: raise e`
  abbrev pub or_raise : E → Option A → Exec S E A
  or_raise e none s = (raise e, s)
  or_raise e (some a) s = (ok a, s)

module _ {S E : Type 0} where
  -- `if b: raise e`
  abbrev pub raise_if : Bool → E → Exec S E (Unit {0})
  raise_if true e s = (raise e, s)
  raise_if false e s = (ok tt, s)

module _ {S E A B : Type 0} where
  abbrev pub continue : Result E A → (A → Exec S E B) → Exec S E B
  continue (ok a) f s = f a s
  continue (raise e) f s = (raise e, s)

  infixl 10 ◌>>=◌ ◌>>◌
  abbrev pub ◌>>=◌ : Exec S E A → (A → Exec S E B) → Exec S E B
  ◌>>=◌ m f s = let (r, s') = m s in continue r f s'

  abbrev pub ◌>>◌ : Exec S E A → Exec S E B → Exec S E B
  m >> n = m >>= λ _. n
