-- ===== src/TouchOsc/Routes.antt =====
-- Every row of the parameter pages reaches a method of the host.
use softcut_py.Base.{
  and-true, ℕ, zero, suc, ◌&&◌, ◌||◌, ◌==◌, get_elem?, subst, some-injective, ◌≡◌, refl, String,
  Bool, true, false, Option, some, List, [], ◌∷◌, string_eq,
}
use softcut_py.Base.Dict.{lookup}
use softcut_py.Platform.{Platform}
use softcut_py.Osc
use softcut_py.Osc.{handlers}
use softcut_py.TouchOsc.{all_rows, Param, message, scaled}
use softcut_py.Base.Int.{pos, ◌+ℤ◌}
use softcut_py.Norns.{call_method}
use softcut_py.Osc.Routes.{dispatch-method, is_method, param_address}
use Prim.Native.String

-- An address of a parameter carries the name of the method, for a switch with "_flag" after it or not.
abbrev pub named_by : String → String → Bool
named_by address name =
    address == param_address name || address == String.◌++◌ (param_address name) "_flag"

module _ (p : Platform) where
  open p use {F}

  abbrev reaches : String → Option Osc.Route → Bool
  reaches address (some (Osc.method name)) = is_method name && named_by address name
  reaches address _ = false

  abbrev all_reach : List (Param p) → Bool
  all_reach [] = true
  all_reach (row ∷ rows) = reaches row.address (lookup row.address handlers) && all_reach rows

  all_rows-reach : (max_time rate : F) → all_reach (all_rows p max_time rate) ≡ true
  unfolding all_rows
  all_rows-reach max_time rate = refl

  reaches-method :
      (address : String) (o : Option Osc.Route)
      → reaches address o ≡ true
      → (name : String) × (o ≡ some (Osc.method name))
        × (is_method name ≡ true)
        × (named_by address name ≡ true)
  reaches-method address (some (Osc.method name)) h = (name, refl, (and-true h).0, (and-true h).1)
  reaches-method address _ h = cc

  all_reach-at :
      (rows : List (Param p)) (i : ℕ) (row : Param p)
      → all_reach rows ≡ true
      → get_elem? rows i ≡ some row
      → reaches row.address (lookup row.address handlers) ≡ true
  all_reach-at [] i row h e = cc
  all_reach-at (first ∷ rows) zero row h e =
      subst (λ (r : Param p). reaches r.address (lookup r.address handlers) ≡ true)
        (some-injective first row e) (and-true h).0
  all_reach-at (first ∷ rows) (suc i) row h e = all_reach-at rows i row (and-true h).1 e

  -- Every row of the parameter pages, moved to any point of its travel for any voice: the server hands
  -- the voice, counted from 1, and the value on the row's range to one method, and the rest of the server
  -- is untouched. The method is one of the host's tables, or position, and its name is the last part of the
  -- row's address, less "_flag".
  pub row-dispatch :
      (max_time rate : F) (i : ℕ) (row : Param p) (voice : ℕ) (x : F) (s : Osc.Server p)
      → get_elem? (all_rows p max_time rate) i ≡ some row
      → (name : String) × (is_method name ≡ true)
        × (named_by row.address name ≡ true)
        × (Osc.dispatch p (message p row voice x).0 (message p row voice x).1 s ≡ record s {
          host = (call_method p name (pos voice +ℤ pos 1) (scaled p row.span x) s.host).1;
        })
  unfolding message
  row-dispatch max_time rate i row voice x s found =
      let (name, e, known, named) =
        reaches-method row.address _
          (all_reach-at (all_rows p max_time rate) i row (all_rows-reach max_time rate) found) in
      (
        name,
        known,
        named,
        dispatch-method p row.address name (pos voice) (scaled p row.span x) [] s e,
      )
