-- ===== src/Base/Exec.antt =====
-- Methods that change an object and may raise. What was written before a raise stays written, so
-- the state comes back beside the error too.
pub mod Keeps
pub mod Gives
use softcut_py.Base.{◌≡◌, refl, Bool, Option, none, some, List, [], ◌∷◌, if◌then◌else◌}

-- The exceptions that the program raises, or lets pass from the interpreter and the extension.
pub data Error : Type 0 where
  index_error value_error key_error type_error attribute_error : Error
  runtime_error import_error overflow_error zero_division_error os_error wave_error eof_error
        struct_error lookup_error timeout_error :
      Error

pub data Result {ℓ} (A : Type ℓ) : Type ℓ where
  ok : A → Result A
  err : Error → Result A

abbrev pub and_then {ℓ κ} : {A : Type ℓ} {B : Type κ} → Result A → (A → Result B) → Result B
and_then (ok a) f = f a
and_then (err e) f = err e

abbrev pub Exec : Type 0 → Type 0 → Type 0
Exec S A = S → Result A × S

abbrev pub or_error : {A : Type 0} → Option A → Error → Result A
or_error none e = err e
or_error (some a) e = ok a

module _ {S A : Type 0} where
  unfoldable pub pure : A → Exec S A
  pure a s = (ok a, s)

  unfoldable pub raise : Error → Exec S A
  raise e s = (err e, s)

  unfoldable pub lift : Result A → Exec S A
  lift r s = (r, s)

  unfoldable pub gets : (S → A) → Exec S A
  gets f s = (ok (f s), s)

  unfoldable pub or_raise : Option A → Error → Exec S A
  or_raise o e s = (or_error o e, s)

module _ {S : Type 0} where
  unfoldable pub modify : (S → S) → Exec S Unit
  modify f s = (ok tt, f s)

  unfoldable pub raise_if : Bool → Error → Exec S Unit
  raise_if b e s = (if b then err e else ok tt, s)

module _ {S A B : Type 0} where
  -- The rest of a method, after its first call ended with `r` in the state `s`.
  abbrev pub resume : Result A → (A → Exec S B) → Exec S B
  resume (ok a) k s = k a s
  resume (err e) k s = (err e, s)

  infixl 5 ◌>>=◌ ◌>>◌
  -- Opening this opens the one-step methods too.
  unfoldable pub ◌>>=◌ : Exec S A → (A → Exec S B) → Exec S B
  unfolding pure raise lift gets or_raise modify raise_if
  ◌>>=◌ m k s = resume (m s).0 k (m s).1

  abbrev pub ◌>>◌ : Exec S A → Exec S B → Exec S B
  m >> k = m >>= λ _. k

module _ {S A : Type 0} where
  -- `for a in xs: f(a)`, ended by the first raise.
  unfoldable pub for_each : List A → (A → Exec S Unit) → Exec S Unit
  unfolding ◌>>=◌
  for_each [] f s = (ok tt, s)
  for_each (x ∷ xs) f s = (f x >> for_each xs f) s

-- A call that returned: what its two halves did.
pub bind-eq-ok :
    {S A B : Type 0} (m : Exec S A) (k : A → Exec S B) (s : S) {b : B} {t : S}
    → (m >>= k) s ≡ (ok b, t)
    → (a : A) × (m s ≡ (ok a, (m s).1)) × (k a (m s).1 ≡ (ok b, t))
unfolding ◌>>=◌
bind-eq-ok {S} {A} {B} m k s {b} {t} h = by_result (m s).0 (m s).1 refl h
  where
    by_result :
        (r : Result A) (u : S)
        → m s ≡ (r, u)
        → resume r k u ≡ (ok b, t)
        → (a : A) × (m s ≡ (ok a, u)) × (k a u ≡ (ok b, t))
    by_result (ok a) u e q = (a, e, q)
    by_result (err x) u e q = cc

pub and_then-eq-ok :
    {A B : Type 0} (r : Result A) (f : A → Result B) {b : B}
    → and_then r f ≡ ok b
    → (a : A) × (r ≡ ok a) × (f a ≡ ok b)
and_then-eq-ok (ok a) f h = (a, refl, h)
and_then-eq-ok (err e) f h = cc

pub ok-injective : {A : Type 0} (a b : A) → ok a ≡ ok b → a ≡ b
ok-injective a b h = cc
