-- ===== src/Prelude/Maybe.antt =====
-- Chains of optional results, for `do` blocks.
use mathlib.Core.Option.{Option, none, some}

-- Chains of optional results.
infixl 5 ◌>>=◌
abbrev pub ◌>>=◌ {ℓ κ} : {A : Type ℓ} {B : Type κ} → Option A → (A → Option B) → Option B
none >>= f = none
some a >>= f = f a
