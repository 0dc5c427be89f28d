-- ===== src/Engine/Context.antt =====
-- `with engine: ...` and the deprecated `Softcut` of src/softcut/__init__.py.
use softcut_py.Base.{◌≡◌, refl, Bool, true, false, Bool-cases, inl, inr}
use softcut_py.Base.Int.{ℤ, pos}
use softcut_py.Base.Exec.{Exec, Result, ◌>>=◌}
use softcut_py.Platform.{Platform}
use softcut_py.Engine.{Engine, start, stop, drain_commands}
use softcut_py.Engine.Methods.{new_engine}

module _ (p : Platform) where
  open p use {F}

  -- `__enter__` starts the engine; `__exit__` stops it, whether the body returns or raises, and lets the
  -- exception pass. Where `__enter__` raises, there is no body and no exit.
  unfoldable pub with_engine : {A : Type 0} → Bool → Exec (Engine p) A → Exec (Engine p) A
  unfolding start stop ◌>>=◌
  with_engine opened body = start p opened >>= λ _ e. ((body e).0, stop p (body e).1)

  -- `Softcut(voices, sample_rate)`
  unfoldable pub new_softcut : ℤ → F → Result (Engine p)
  unfolding new_engine
  new_softcut voices sample_rate =
      new_engine p voices sample_rate "playback" (pos 512) (pos 2) "upstream"

  stop-running : (e : Engine p) → (stop p e).running ≡ false
  unfolding stop drain_commands
  stop-running e = elim (Bool-cases e.running) [
    | inl live ↦ rw live refl
    | inr quiet ↦ rw quiet refl
  ]

  -- After a `with` block whose engine started, the engine is stopped, whatever the body did to it and
  -- whether it returned or raised, and the body's result passes through.
  with_engine-stops :
      {A : Type 0} (body : Exec (Engine p) A) (e : Engine p)
      → e.running ≡ false
      → ((with_engine true body e).0 ≡ (body (record e { running = true })).0)
        × ((with_engine true body e).1.running ≡ false)
  unfolding with_engine start ◌>>=◌
  with_engine-stops body e stopped =
      rw stopped (refl, stop-running (body (record e { running = true })).1)
