-- ===== src/Demos/OscSurface/Touch.antt =====
-- A control that is moved: the datagrams are sent again until the host shows the value, and repeats do
-- nothing more.
use softcut_py.Base.{
  ℕ, zero, suc, ◌+◌, ◌<◌, ◌≡◌, String, Bool, true, false, ◌||◌, ◌⊎◌, some, List, [], ◌∷◌, length,
  replicate, ◌==◌, nat_eq, string_eq, if◌then◌else◌,
}
use softcut_py.Base.Int.{pos}
use softcut_py.Base.Dict.{lookup}
use softcut_py.Base.Exec.{Result, ok, err, timeout_error}
use softcut_py.Platform.{Platform}
use softcut_py.Engine.{Engine}
use softcut_py.Engine.Shape
use softcut_py.Norns.{float_params}
use softcut_py.Norns.Setters.{mirror, replaced}
use softcut_py.Osc
use softcut_py.Osc.{param_map}
use softcut_py.Osc.Routes.{param_address}
use softcut_py.Demos.OscSurface.{Round, Message, touch_rounds}

abbrev pub some_late : List Round → Bool
some_late [] = false
some_late (r ∷ rest) = r.late || some_late rest

-- The datagrams that arrive in the first `m` rounds.
abbrev pub arrivals : ℕ → List Round → ℕ
arrivals zero rounds = 0
arrivals (suc m) [] = 0
arrivals (suc m) (r ∷ rest) = r.arrives + arrivals m rest

module _ (p : Platform) where
  open p use {F, narrow}

  -- With none of `n` arrivals every float property reads what it did, and else what the one message makes
  -- of it.
  abbrev pub OnceOrNever : ℕ → ℕ → String → F → Osc.Server p → Osc.Server p → Type 0
  OnceOrNever n k attr x s s' =
      (j : ℕ) (a : String)
      → mirror p j a s'.host.engine ≡ (
          if n == 0
          then mirror p j a s.host.engine
          else replaced p k attr (narrow x) s.host.engine j a)

  -- It ends with the value shown, or by the deadline with the value not shown.
  abbrev pub Ended : (Osc.Server p → Bool) → Result (Unit {0}) → Osc.Server p → Type 0
  Ended shown r s' =
      ((r ≡ ok tt) × (shown s' ≡ true)) ⊎ ((r ≡ err timeout_error) × (shown s' ≡ false))

  module _ (suffix name attr : String) (k : ℕ) (x : F) (found : lookup suffix param_map ≡ some name)
      (named : lookup name float_params ≡ some attr) where
    abbrev message : Message p
    message = (param_address suffix, Osc.int (pos k) ∷ Osc.float x ∷ [])

    -- The server has a voice for the message.
    record HasVoice (s : Osc.Server p) : Type 0 where
      counted : s.host.voices ≡ pos (length s.host.engine.voices)
      inside : k < length s.host.engine.voices

    -- The loop ends with the result `r` after `m` rounds, the server in the state after their arrivals.
    abbrev Ran : (Osc.Server p → Bool) → List Round → Osc.Server p → Result (Unit {0}) → ℕ → Type 0
    Ran shown rounds s r m =
        let t = Osc.dispatch_all p (replicate (arrivals m rounds) message) s in
        (touch_rounds p (some shown) message rounds s ≡ some (r, t)) × Ended shown r t
