-- ===== src/TouchOsc/Widgets.antt =====
-- The controls that clients/touchosc/build_layout.py makes by calls of the package py2tosc: each
-- constructor is a call with what the script passes to it. Colours, sizes of text, corners, gaps and
-- paddings are left out.
use softcut_py.Base.{
  ℕ, ◌+◌, ◌≡◌, ◌==◌, string_eq, String, Bool, true, Option, none, some, List, [], ◌∷◌, ◌++◌,
  if◌then◌else◌, length,
}
use softcut_py.Base.Int.{ℤ, pos}
use softcut_py.Base.Exec.{Result, ok, and_then}
use Prim.Native.String
use softcut_py.Platform.{Platform}
use softcut_py.TouchOsc.{Param, underscored, position_of}
use softcut_py.TouchOsc.Pages.{Partial, index_arg, scaled_arg, Control}

-- The parts of a text, joined.
unfoldable pub join : List String → String
join [] = ""
join (s ∷ rest) = String.◌++◌ s (join rest)

module _ (p : Platform) where
  open p use {F, lit, show_int, show_general}

  -- `send`, `send_on_press` and `receive_only`: a binding of a control to an address.
  pub data Binding : Type 0 where
    send send_on_press receive_only : String → List (Partial p) → Binding

  mutual
    pub data Widget : Type 0 where
      text_label : (name text : String) → Widget
      box : (name : String) → Widget
      fader_control :
          (name : String) (orientation steps : ℕ) (interactive : Bool) (at : F)
          → List Binding
          → Widget
      button_control : (name : String) (button_type : ℕ) → List Binding → Widget
      -- `ui.labelled`
      labelled : Widget → (text : String) → Widget
      -- `ui.row` and `ui.column`, with one size for each child where sizes are given
      row column : (name : Option String) → (sizes : Option (List F)) → Widgets → Widget
      stack : (name : Option String) → (frame : Option (ℤ × ℤ)) → Widgets → Widget
      pager : (name : String) → (tabbar_size : F) → Widgets → Widget

    pub data Widgets : Type 0 where
      no_widget : Widgets
      widgets : Widget → Widgets → Widgets

  abbrev pub child_count : Widgets → ℕ
  child_count no_widget = 0
  child_count (widgets w ws) = child_count ws + 1

  -- Children, made from left to right.
  unfoldable pub collect : List (Result Widget) → Result Widgets
  collect [] = ok no_widget
  collect (r ∷ rs) = and_then r λ w. and_then (collect rs) λ ws. ok (widgets w ws)

  unfoldable pub lay_row : Option String → Option (List F) → List (Result Widget) → Result Widget
  unfolding collect
  lay_row name sizes children = and_then (collect children) λ ws. ok (row name sizes ws)

  unfoldable pub lay_column : Option String → Option (List F) → List (Result Widget) → Result Widget
  unfolding collect
  lay_column name sizes children = and_then (collect children) λ ws. ok (column name sizes ws)

  abbrev pub number : ℕ → String
  number n = show_int (pos n)

  -- `caption(text)`
  unfoldable pub caption : String → Result Widget
  caption text = ok (text_label (if text == "" then "spacer" else text) text)

  -- `titled(control, text, sizes)`
  unfoldable pub titled : Result Widget → String → List F → Result Widget
  titled control text sizes = lay_column none (some sizes) (caption text ∷ control ∷ [])

  -- `hfader` and `vfader`, at a position that is computed before
  unfoldable pub hfader : String → List Binding → ℕ → Bool → Result F → Result Widget
  hfader name messages steps interactive at =
      and_then at λ x. ok (fader_control name 1 steps interactive x messages)

  unfoldable pub vfader : String → List Binding → Result F → Result Widget
  vfader name messages at = and_then at λ x. ok (fader_control name 0 11 true x messages)

  abbrev pub text_or : Option String → String → String
  text_or none name = name
  text_or (some text) name = text

  -- A button that latches, and one that fires when it is pressed.
  unfoldable pub toggle : String → List Binding → Option String → Result Widget
  toggle name messages text = ok (labelled (button_control name 1 messages) (text_or text name))

  unfoldable pub trigger : String → List Binding → Option String → Result Widget
  trigger name messages text = ok (labelled (button_control name 0 messages) (text_or text name))

  -- `Param.caption()`
  unfoldable pub param_caption : Param p → String
  unfolding join
  param_caption param =
      let text =
        if param.toggle
        then param.label
        else let (lo, hi) = param.span in
          join (param.label ∷ "  " ∷ show_general lo ∷ ".." ∷ show_general hi ∷ []) in
      if param.note == "" then text else join (text ∷ "   " ∷ param.note ∷ [])

  -- `Param.control(voice)`
  unfoldable pub control : Param p → ℕ → Result Widget
  control param voice =
      let stem = if param.key == "" then param.label else param.key in
      let name = join (underscored stem ∷ number (voice + 1) ∷ []) in
      let message = send param.address (index_arg voice ∷ scaled_arg param.span ∷ []) in
      if param.toggle
      then toggle name (message ∷ []) (some "")
      else hfader name (message ∷ []) 11 true (position_of p param.address param.span)

  -- What a control transmits when it is used. A binding that only receives transmits nothing.
  unfoldable pub transmitted : List Binding → List (Control p)
  transmitted [] = []
  transmitted (send address args ∷ rest) = (address, args) ∷ transmitted rest
  transmitted (send_on_press address args ∷ rest) = (address, args) ∷ transmitted rest
  transmitted (receive_only address args ∷ rest) = transmitted rest

  unfoldable mutual
    unfolding transmitted

    pub sent : Widget → List (Control p)
    sent (text_label name text) = []
    sent (box name) = []
    sent (fader_control name orientation steps interactive at messages) = transmitted messages
    sent (button_control name button_type messages) = transmitted messages
    sent (labelled w text) = sent w
    sent (row name sizes ws) = sent_all ws
    sent (column name sizes ws) = sent_all ws
    sent (stack name frame ws) = sent_all ws
    sent (pager name tabbar_size ws) = sent_all ws

    pub sent_all : Widgets → List (Control p)
    sent_all no_widget = []
    sent_all (widgets w ws) = sent w ++ sent_all ws

  abbrev pub Fits : Option (List F) → ℕ → Type 0
  Fits none n = Unit {0}
  Fits (some sizes) n = length sizes ≡ n

  -- Every row and column that is given sizes has one for each child.
  unfoldable mutual
    pub IsLaid : Widget → Type 0
    IsLaid (labelled w text) = IsLaid w
    IsLaid (row name sizes ws) = Fits sizes (child_count ws) × AllLaid ws
    IsLaid (column name sizes ws) = Fits sizes (child_count ws) × AllLaid ws
    IsLaid (stack name frame ws) = AllLaid ws
    IsLaid (pager name tabbar_size ws) = AllLaid ws
    IsLaid _ = Unit {0}

    pub AllLaid : Widgets → Type 0
    AllLaid no_widget = Unit {0}
    AllLaid (widgets w ws) = IsLaid w × AllLaid ws
