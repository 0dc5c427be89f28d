-- ===== src/Demos/OscSurface.antt =====
-- A finger on the TouchOSC surface: `binding` and `Surface.touch` of demos/13_osc_surface.py. What the
-- package py2tosc finds under a control's name, and which datagrams the network delivers, are arguments.
pub mod Touch
use softcut_py.Base.{
  ℕ, String, Bool, true, false, Option, none, some, List, [], ◌∷◌, replicate, if◌then◌else◌,
}
use softcut_py.Base.Exec.{Result, ok, err, lookup_error, timeout_error}
use softcut_py.Platform.{Platform}
use softcut_py.TouchOsc.Pages.{Control, arguments}
use softcut_py.TouchOsc.Widgets.{Binding, send, send_on_press, receive_only}
use softcut_py.Datagram.{osc_datagram}
use softcut_py.Osc

-- A round of the loop that resends: how many datagrams of the control arrive before the check, and whether
-- the deadline has passed.
pub record Round : Type 0 where
  pub arrives : ℕ
  pub late : Bool

module _ (p : Platform) where
  open p use {F}

  abbrev pub Message : Type 0
  Message = String × List (Osc.Arg p)

  -- The first message of a control that is sent.
  unfoldable pub first_sent : List (Binding p) → Result (Control p)
  first_sent [] = err lookup_error
  first_sent (send address args ∷ rest) = ok (address, args)
  first_sent (send_on_press address args ∷ rest) = ok (address, args)
  first_sent (receive_only address args ∷ rest) = first_sent rest

  -- `binding(document, name)`, with the messages of the control that `document.find(name)` gives
  unfoldable pub binding : Option (List (Binding p)) → Result (Control p)
  unfolding first_sent
  binding none = err lookup_error
  binding (some messages) = first_sent messages

  -- The `while True` loop of `touch`; `none` means that it still waits when the rounds end.
  unfoldable pub touch_rounds :
      Option (Osc.Server p → Bool)
      → Message
      → List Round
      → Osc.Server p
      → Option (Result (Unit {0}) × Osc.Server p)
  touch_rounds until message [] s = none
  touch_rounds until message (r ∷ rest) s =
      let s' = Osc.dispatch_all p (replicate r.arrives message) s in
      let more = touch_rounds until message rest s' in
      elim until [
        | none ↦ some (ok tt, s')
        | some shown ↦
            if shown s'
            then some (ok tt, s')
            else if r.late
            then some (err timeout_error, s')
            else more
      ]

  -- The loop, where the message can be encoded.
  abbrev pub encoded :
      Result (List ℕ)
      → Option (Result (Unit {0}) × Osc.Server p)
      → Osc.Server p
      → Option (Result (Unit {0}) × Osc.Server p)
  encoded (ok bytes) looped s = looped
  encoded (err e) looped s = some (err e, s)

  -- `touch(name, x, until=until)`
  unfoldable pub touch :
      Option (List (Binding p))
      → F
      → Option (Osc.Server p → Bool)
      → List Round
      → Osc.Server p
      → Option (Result (Unit {0}) × Osc.Server p)
  touch found x until rounds s = elim (binding found) [
    | err e ↦ some (err e, s)
    | ok (address, args) ↦
        encoded (osc_datagram p address (arguments p x args))
          (touch_rounds until (address, arguments p x args) rounds s) s
  ]
