-- ===== src/Base/Exec/Keeps.antt =====
-- Invariants of methods, with one rule for each way to build a method.
use softcut_py.Base.{Bool, true, false, Option, List, [], ◌∷◌, if◌then◌else◌}
use softcut_py.Base.Exec.{
  Error, Result, ok, err, Exec, pure, raise, lift, gets, or_raise, modify, raise_if, ◌>>=◌, resume,
  for_each,
}

-- The method keeps `P`, whether it returns or raises.
pub record Keeps {S A : Type 0} (P : S → Type 0) (m : Exec S A) : Type 0 where
  pub at : (s : S) → P s → P (m s).1

module _ {S A : Type 0} {P : S → Type 0} where
  pub Keeps-or_raise : (o : Option A) (e : Error) → Keeps P (or_raise o e)
  unfolding or_raise
  Keeps-or_raise o e = record { at = λ s kept. kept }

  pub Keeps-gets : (read : S → A) → Keeps P (gets read)
  unfolding gets
  Keeps-gets read = record { at = λ s kept. kept }

  pub Keeps-lift : (result : Result A) → Keeps P (lift result)
  unfolding lift
  Keeps-lift result = record { at = λ s kept. kept }

  pub Keeps-raise : (e : Error) → Keeps P (raise {A = A} e)
  unfolding raise
  Keeps-raise e = record { at = λ s kept. kept }

  pub Keeps-pure : (value : A) → Keeps P (pure value)
  unfolding pure
  Keeps-pure value = record { at = λ s kept. kept }

  pub Keeps-if : (b : Bool) (m n : Exec S A) → Keeps P m → Keeps P n → Keeps P (if b then m else n)
  Keeps-if true m n km kn = km
  Keeps-if false m n km kn = kn

module _ {S : Type 0} {P : S → Type 0} where
  pub Keeps-raise_if : (b : Bool) (e : Error) → Keeps P (raise_if b e)
  unfolding raise_if
  Keeps-raise_if b e = record { at = λ s h. h }

  pub Keeps-modify : (f : S → S) → ((s : S) → P s → P (f s)) → Keeps P (modify f)
  unfolding modify
  Keeps-modify f k = record { at = k }

module _ {S A B : Type 0} {P : S → Type 0} where
  Keeps-resume :
      (r : Result A) (k : A → Exec S B) (s : S)
      → ((a : A) → Keeps P (k a))
      → P s
      → P (resume r k s).1
  Keeps-resume (ok a) k s kk h = (kk a).at s h
  Keeps-resume (err e) k s kk h = h

  pub Keeps-bind :
      (m : Exec S A) (k : A → Exec S B) → Keeps P m → ((a : A) → Keeps P (k a)) → Keeps P (m >>= k)
  unfolding ◌>>=◌
  Keeps-bind m k km kk = record { at = λ s h. Keeps-resume (m s).0 k (m s).1 kk (km.at s h) }

module _ {S A : Type 0} {P : S → Type 0} where
  pub Keeps-for_each :
      (xs : List A) (f : A → Exec S Unit) → ((a : A) → Keeps P (f a)) → Keeps P (for_each xs f)
  unfolding for_each
  Keeps-for_each [] f kf = record { at = λ s h. h }
  Keeps-for_each (x ∷ xs) f kf = record {
    at = (Keeps-bind (f x) (λ _. for_each xs f) (kf x) (λ _. Keeps-for_each xs f kf)).at;
  }

pub ruleset keeps_rules = (
  Keeps-pure, Keeps-raise, Keeps-lift, Keeps-gets, Keeps-or_raise, Keeps-if, Keeps-raise_if,
  Keeps-modify, Keeps-bind, Keeps-for_each,
)
