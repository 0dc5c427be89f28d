-- ===== src/Osc/Lifecycle.antt =====
-- The transports and the life of the server of src/softcut/osc.py: construction, `start`, `shutdown`
-- and the order of `main`.
use softcut_py.Base.{
  String, Bool, true, false, not, Option, none, some, List, [], ◌∷◌, ◌==◌, string_eq, if◌then◌else◌,
  length, replicate,
}
use softcut_py.Base.Exec.{
  Result, ok, err, and_then, value_error, import_error, runtime_error, os_error,
}
use softcut_py.Platform.{Platform}
use softcut_py.Engine
use softcut_py.Engine.{start, stop}
use softcut_py.Norns.{Host, on_engine}
use softcut_py.Osc.{Server, Arg, dispatch, dispatch_all}
use softcut_py.Osc.Poll
use softcut_py.Osc.Poll.{PhasePoll}

-- `_resolve_backend(backend)`, given NATIVE_OSC_AVAILABLE and HAVE_PYTHONOSC
unfoldable pub resolve_backend : Bool → Bool → String → Result String
resolve_backend native_available have_pythonosc backend =
    if backend == "auto"
    then if native_available
      then ok "native"
      else if have_pythonosc
      then ok "python-osc"
      else err import_error
    else if backend == "native"
    then if not native_available then err runtime_error else ok "native"
    else if backend == "python-osc"
    then if not have_pythonosc then err import_error else ok "python-osc"
    else err value_error

module _ (p : Platform) where
  abbrev pub new_poll : Host p → PhasePoll p
  new_poll h = record {
    last = replicate (length h.engine.voices) none;
    running = false;
    errors = 0;
    sent = [];
  }

  -- `SoftcutOSC(host, backend=...)`; `bindable` tells whether the listen port is free. Either
  -- transport binds its socket here and raises OSError or RuntimeError if it cannot.
  unfoldable pub new_server : Bool → Bool → Bool → Host p → String → Result (Server p)
  unfolding resolve_backend
  new_server native_available have_pythonosc bindable h backend =
      and_then (resolve_backend native_available have_pythonosc backend) λ resolved.
        if bindable
        then ok (record {
          host = h;
          backend = resolved;
          quit_requested = false;
          phase = new_poll h;
          serving = false;
          bound = true;
        })
        else err (if resolved == "native" then runtime_error else os_error)

  -- `start()` of either transport, once or more often
  unfoldable pub start_serving : Server p → Server p
  start_serving s = record s { serving = true }

  abbrev pub Message : Type 0
  Message = String × List (Arg p)

  -- `shutdown()`: the phase poll first, then the serve loop or the receiver, and the socket. Between the
  -- two the server still handles messages: `late` are those.
  unfoldable pub shutdown : List Message → Server p → Server p
  unfolding Poll.stop dispatch_all
  shutdown late s =
      let t = dispatch_all p late (record s { phase = Poll.stop p s.phase }) in
      record t { serving = false; bound = false }

  -- What happens while the main thread is in `wait_for_quit`: a message is handled, the wait of a quarter
  -- of a second is over or woken by the flag, or the user interrupts.
  pub data Event : Type 0 where
    arrives : Message → Event
    waited interrupted : Event

  -- `wait_for_quit()`, with the events that come after it; `none` means that it still waits.
  unfoldable pub wait_for_quit : List Event → Server p → Option (List Event × Server p)
  unfolding dispatch
  wait_for_quit [] s = none
  wait_for_quit (arrives message ∷ rest) s = wait_for_quit rest (dispatch p message.0 message.1 s)
  wait_for_quit (interrupted ∷ rest) s = some (rest, s)
  wait_for_quit (waited ∷ rest) s =
      let later = wait_for_quit rest s in if s.quit_requested then some (rest, s) else later

  -- The messages among events.
  abbrev pub messages_of : List Event → List Message
  messages_of [] = []
  messages_of (arrives message ∷ rest) = message ∷ messages_of rest
  messages_of (_ ∷ rest) = messages_of rest

  abbrev pub with_engine : (Engine.Engine p → Engine.Engine p) → Server p → Server p
  with_engine f s = record s { host = record s.host { engine = f s.host.engine } }

  -- The `finally` of `main`, with the messages that still come before and in `shutdown`.
  unfoldable pub close : Bool → List Message → List Message → Server p → Server p
  unfolding shutdown dispatch_all stop
  close no_audio early late s =
      let closed = shutdown late (dispatch_all p early s) in
      if no_audio then closed else with_engine (stop p) closed

  -- The `try ... finally` of `main`, once the server is started.
  unfoldable pub serve_and_close : Bool → List Event → List Message → Server p → Option (Server p)
  unfolding wait_for_quit close
  serve_and_close no_audio events late s = elim (wait_for_quit events s) [
    | none ↦ none
    | some (rest, t) ↦ some (close no_audio (messages_of rest) late t)
  ]

  -- `main`, after its arguments are parsed and its host is made: the server, the device unless
  -- `--no-audio`, the wait, and the clean-up. A device that does not open ends the run; `ok none` means
  -- that it still waits.
  unfoldable pub run_main :
      Bool
      → Bool
      → Bool
      → Bool
      → Bool
      → Host p
      → String
      → List Event
      → List Message
      → Result (Option (Server p))
  unfolding new_server start_serving serve_and_close start
  run_main native_available have_pythonosc bindable opened no_audio h backend events late =
      and_then (new_server native_available have_pythonosc bindable h backend) λ s.
        if no_audio
        then ok (serve_and_close true events late (start_serving s))
        else let (r, h') = on_engine p (start p opened) s.host in
          and_then r
            λ _. ok (serve_and_close false events late (start_serving (record s { host = h' })))
