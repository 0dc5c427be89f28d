-- ===== src/Norns/Control.antt =====
-- The control of the host's engine: `start`, `stop` and `render` of src/softcut/norns.py.
use softcut_py.Base.{Bool, Option, none, some, List}
use softcut_py.Base.Exec.{Exec, Result, modify}
use softcut_py.Platform.{Platform}
use softcut_py.Engine
use softcut_py.Engine.{Engine}
use softcut_py.Engine.Render
use softcut_py.Norns.{Host, on_engine}

module _ (p : Platform) where
  open p use {F, S}

  unfoldable pub start : Bool → Exec (Host p) Unit
  unfolding Engine.start
  start opened = on_engine p (Engine.start p opened)

  unfoldable pub stop : Exec (Host p) Unit
  unfolding Engine.stop
  stop = on_engine p (modify (Engine.stop p))

  -- What a render of the engine leaves of the host.
  abbrev pub with_rendered :
      Host p → Option (Result (List S) × Engine p) → Option (Result (List S) × Host p)
  with_rendered h none = none
  with_rendered h (some (r, e)) = some (r, record h { engine = e })

  unfoldable pub render :
      Option (List S) → Option (List S) → Option F → Host p → Option (Result (List S) × Host p)
  unfolding Render.render
  render input out seconds h = with_rendered h (Render.render p input out seconds h.engine)
