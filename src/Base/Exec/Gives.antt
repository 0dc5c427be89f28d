-- ===== src/Base/Exec/Gives.antt =====
-- What calls give where they return, for methods that may raise.
use softcut_py.Base.{◌≡◌, refl, subst, Bool, true, false, if◌then◌else◌}
use softcut_py.Base.Exec.{Error, Result, ok, err, and_then, ok-injective}

-- What a call returns, where it returns, satisfies `Q`.
pub record Gives {A : Type 0} (Q : A → Type 0) (r : Result A) : Type 0 where
  pub holds : (a : A) → r ≡ ok a → Q a

module _ {A : Type 0} {Q : A → Type 0} where
  pub Gives-ok : (a : A) → Q a → Gives Q (ok a)
  Gives-ok a q = record { holds = λ b h. subst Q (ok-injective a b h) q }

  -- A guard that raises was passed.
  pub Gives-guard :
      (b : Bool) (e : Error) (r : Result A)
      → (b ≡ false → Gives Q r)
      → Gives Q (if b then err e else r)
  Gives-guard true e r g = record { holds = λ a h. cc }
  Gives-guard false e r g = g refl

  pub Gives-and_then :
      {B : Type 0} (r : Result B) (f : B → Result A)
      → ((b : B) → r ≡ ok b → Gives Q (f b))
      → Gives Q (and_then r f)
  Gives-and_then (ok b) f g = g b refl
  Gives-and_then (err e) f g = record { holds = λ a h. cc }
