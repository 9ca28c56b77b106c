-- ===== src/Base/Effect.antt =====
-- Calls that may return an error and that change a state: `(T, error)` of a Go method on a store.
-- What was written before an error stays written, so the state comes back beside the error too.
use mathlib.Core.Bool.{Bool, true, false}
use mathlib.Core.Option.{Option, none, some}
pub mod Reads
pub use ma_secure.Base.Fallible.{Result, ok, err, ok-injective}

abbrev pub Exec {ℓ} : Type ℓ → Type ℓ → Type ℓ → Type ℓ
Exec E S A = S → Result E A × S

module _ {ℓ} {E S A : Type ℓ} where
  abbrev pub pure : A → Exec E S A
  pure a s = (ok a, s)

  abbrev pub raise : E → Exec E S A
  raise e s = (err e, s)

  abbrev pub lift : Result E A → Exec E S A
  lift r s = (r, s)

module _ {ℓ} {E S A B : Type ℓ} where
  abbrev pub continue : (A → Exec E S B) → Result E A → Exec E S B
  continue f (ok a) s = f a s
  continue f (err e) s = (err e, s)

  infixl 10 ◌>>=◌ ◌>>◌
  abbrev pub ◌>>=◌ : Exec E S A → (A → Exec E S B) → Exec E S B
  ◌>>=◌ m f s = continue f (m s).0 (m s).1

  abbrev pub ◌>>◌ : Exec E S A → Exec E S B → Exec E S B
  m >> n = m >>= λ _. n

-- `if !b { return err }`
abbrev pub guard {ℓ} : {E S : Type ℓ} → Bool → E → Exec E S (Unit {ℓ})
guard true e = pure tt
guard false e = raise e

abbrev pub require_some {ℓ} : {E S A : Type ℓ} → Option A → E → Exec E S A
require_some none e = raise e
require_some (some a) e = pure a

-- The value that a call reads off the state.
abbrev pub gets {ℓ} : {E S A : Type ℓ} → (S → A) → Exec E S A
gets f s = (ok (f s), s)
