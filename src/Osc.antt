-- ===== src/Osc.antt =====
-- The OSC server of src/softcut/osc.py: the messages, the dispatch table and the handlers over a
-- `NornsSoftcut` host. Logging is not modelled.
pub mod Poll
pub mod Lifecycle
pub mod Shape
pub mod Asked
pub mod Session
pub mod Reports
pub mod Routes
pub mod Sequence
pub mod Native
pub mod NativePoll
mod Table
mod Args
mod Handlers
pub use Table.*
unfoldable pub use Args.*
unfoldable pub use Handlers.*
use softcut_py.Base.{
  String, true, Option, none, some, List, [], ◌∷◌, ◌==◌, string_eq, if◌then◌else◌,
}
use softcut_py.Base.Dict.{lookup}
use softcut_py.Base.Exec.{Exec, pure, modify}
use softcut_py.Platform.{Platform}
use softcut_py.Norns.{call_method, voice_sync, level_cut_cut, reset_all}
use softcut_py.Norns.Regions.{buffer_clear}
use Poll.{start, stop}

module _ (p : Platform) where
  -- The handler of a route. The native reporter starts with what it last sent still remembered.
  unfoldable pub handle : Route → List (Arg p) → Exec (Server p) Unit
  unfolding v_f ii_f set_enabled on_in_cut on_buffer on_read_mono on_read_stereo on_write_mono
      on_write_stereo on_clear_channel on_clear_region on_clear_region_channel call_method
      voice_sync level_cut_cut reset_all buffer_clear start stop
  handle hello args = pure tt
  handle quit args = modify (λ s. record s { quit_requested = true })
  handle poll_start args = modify (λ s. record s {
    phase = if s.backend == "native" then record s.phase { running = true } else start p s.phase;
  })
  handle poll_stop args = modify (λ s. record s { phase = stop p s.phase })
  handle unsupported args = pure tt
  handle ignore args = pure tt
  handle (method name) args = v_f p (call_method p name) args
  handle enabled args = v_f p (set_enabled p) args
  handle cut_cut args = ii_f p (level_cut_cut p) args
  handle in_cut args = on_in_cut p args
  handle sync_voices args = ii_f p (voice_sync p) args
  handle assign_buffer args = on_buffer p args
  handle read_mono args = on_read_mono p args
  handle read_stereo args = on_read_stereo p args
  handle write_mono args = on_write_mono p args
  handle write_stereo args = on_write_stereo p args
  handle clear args = on_host p (buffer_clear p)
  handle clear_channel args = on_clear_channel p args
  handle clear_region args = on_clear_region p args
  handle clear_region_channel args = on_clear_region_channel p args
  handle reset args = on_host p (reset_all p)

  -- `_dispatch(address, args)`: an unknown address is ignored, an exception is logged and dropped.
  unfoldable pub dispatch : String → List (Arg p) → Server p → Server p
  unfolding handle
  dispatch address args s = elim (lookup address handlers) [
    | none ↦ s
    | some route ↦ (handle route args s).1
  ]

  -- The messages that a transport delivers, one after another.
  unfoldable pub dispatch_all : List (String × List (Arg p)) → Server p → Server p
  unfolding dispatch
  dispatch_all [] s = s
  dispatch_all ((address, args) ∷ rest) s = dispatch_all rest (dispatch address args s)
