-- ===== src/Osc/Session.antt =====
-- A run of the server from its construction to its clean-up.
use softcut_py.Base.{
  length, ◌<◌, ◌≡◌, String, Bool, true, false, List, [], ◌∷◌, string_eq, ◌⊎◌, arith,
}
use softcut_py.Base.Exec.{ok}
use softcut_py.Platform.{Platform}
use softcut_py.Engine.{Engine, start}
use softcut_py.Norns.{Host, on_engine}
use softcut_py.Osc
use softcut_py.Osc.{Server}
use softcut_py.Osc.Poll
use softcut_py.Osc.Lifecycle.{resolve_backend, new_poll, Message, Event, arrives}

-- The transport that is chosen is installed, and it is the one asked for unless that was "auto".
pub resolve_backend-available :
    (native_available have_pythonosc : Bool) (backend : String) {chosen : String}
    → resolve_backend native_available have_pythonosc backend ≡ ok chosen
    → (((chosen ≡ "native") × (native_available ≡ true))
        ⊎ ((chosen ≡ "python-osc") × (have_pythonosc ≡ true)))
      × ((chosen ≡ backend) ⊎ (backend ≡ "auto"))
unfolding resolve_backend
resolve_backend-available native_available have_pythonosc backend h = ground (
  arith,
  string_eq.same_iff backend "auto",
  string_eq.same_iff backend "native",
  string_eq.same_iff backend "python-osc",
)

module _ (p : Platform) where
  -- Messages that come one after another, and then other events.
  abbrev pub arriving : List (Message p) → List (Event p) → List (Event p)
  arriving [] rest = rest
  arriving (message ∷ messages) rest = arrives message ∷ arriving messages rest

  -- The server no longer serves and its socket is closed; unless it had no device, the engine has stopped; and
  -- the phase poll is stopped, unless messages were handled while `shutdown` ran.
  abbrev pub Closed : Bool → List (Message p) → Server p → Type 0
  Closed no_audio late s =
      (s.serving ≡ false)
      × (s.bound ≡ false)
      × ((s.host.engine.running ≡ false) ⊎ (no_audio ≡ true))
      × ((s.phase.running ≡ false) ⊎ (0 < length late))

  abbrev made : Host p → Host p → String → Server p
  made h now chosen = record {
    host = now;
    backend = chosen;
    quit_requested = false;
    phase = new_poll p h;
    serving = false;
    bound = true;
  }

  abbrev started : Host p → Host p
  started h = (on_engine p (start p true) h).1
