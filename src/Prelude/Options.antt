-- ===== src/Prelude/Options.antt =====
-- A test for NULL: the two branches of `if(!p)` as arguments.
use mathlib.Core.Option.{Option, none, some}

module _ {ℓ ℓ'} {A : Type ℓ} {B : Type ℓ'} where
  abbrev pub if_null : B → (A → B) → Option A → B
  if_null b f none = b
  if_null b f (some a) = f a
