-- ===== src/TouchOsc/Surface/Draws.antt =====
-- Rules for the trees of controls of clients/touchosc/build_layout.py: what is made, whether its rows and
-- columns have a size for each child, and what it transmits.
use softcut_py.Base.{
  ℕ, ◌+◌, ◌≡◌, refl, ap, ap₂, ◌∙◌, sym, subst, String, Bool, true, Option, none, some, List, [],
  ◌∷◌, ◌++◌, map, length, arith,
}
use mathlib.Core.List.{append-nil}
use softcut_py.Base.Exec.{Result, ok}
use softcut_py.Platform.{Platform}
use softcut_py.TouchOsc.Pages.{Control, flat_map}
use softcut_py.TouchOsc.Widgets.{
  Widget, Widgets, Binding, row, column, fader_control, widgets, no_widget, child_count, collect,
  lay_row, lay_column, caption, titled, hfader, vfader, toggle, trigger, transmitted, sent,
  sent_all, IsLaid, AllLaid, Fits,
}

module _ (p : Platform) where
  open p use {F}

  -- A call that makes a control which is laid out right and transmits `messages`.
  pub record Draws (messages : List (Control p)) (r : Result (Widget p)) : Type 0 where
    pub widget : Widget p
    pub made : r ≡ ok widget
    pub laid : IsLaid p widget
    pub sends : sent p widget ≡ messages

  -- The same of `n` children.
  pub record DrawsAll (n : ℕ) (messages : List (Control p)) (rs : List (Result (Widget p)))
      : Type 0 where
    pub all : Widgets p
    pub all_made : collect p rs ≡ ok all
    pub all_laid : AllLaid p all
    pub count : child_count p all ≡ n
    pub all_send : sent_all p all ≡ messages

  pub Draws-eq : {m m' : List (Control p)} {r : Result (Widget p)} → Draws m r → m ≡ m' → Draws m' r
  Draws-eq d e = record { widget = d.widget; made = d.made; laid = d.laid; sends = d.sends ∙ e }

  pub DrawsAll-nil : DrawsAll 0 [] []
  unfolding collect sent IsLaid
  DrawsAll-nil = record {
    all = no_widget;
    all_made = refl;
    all_laid = tt;
    count = refl;
    all_send = refl;
  }

  pub DrawsAll-cons :
      {n : ℕ} {m ms : List (Control p)} {r : Result (Widget p)} {rs : List (Result (Widget p))}
      → Draws m r
      → DrawsAll n ms rs
      → DrawsAll (n + 1) (m ++ ms) (r ∷ rs)
  unfolding collect sent IsLaid
  DrawsAll-cons d ds = record {
    all = widgets d.widget ds.all;
    all_made = rw (d.made, ds.all_made) refl;
    all_laid = (d.laid, ds.all_laid);
    count = ap (λ k. k + 1) ds.count;
    all_send = ap₂ ◌++◌ d.sends ds.all_send;
  }

  -- A child that transmits nothing.
  pub DrawsAll-quiet :
      {n : ℕ} {ms : List (Control p)} {r : Result (Widget p)} {rs : List (Result (Widget p))}
      → Draws [] r
      → DrawsAll n ms rs
      → DrawsAll (n + 1) ms (r ∷ rs)
  DrawsAll-quiet d ds = DrawsAll-cons d ds

  pub DrawsAll-last :
      {m : List (Control p)} {r : Result (Widget p)} → Draws m r → DrawsAll 1 m (r ∷ [])
  DrawsAll-last {m} d =
      let one = DrawsAll-cons d DrawsAll-nil in
      record {
        all = one.all;
        all_made = one.all_made;
        all_laid = one.all_laid;
        count = one.count;
        all_send = one.all_send ∙ append-nil m;
      }

  pub DrawsAll-map :
      {A : Type 0} (f : A → List (Control p)) (g : A → Result (Widget p))
      → ((x : A) → Draws (f x) (g x))
      → (xs : List A) → DrawsAll (length xs) (flat_map f xs) (map g xs)
  unfolding flat_map
  DrawsAll-map f g each [] = DrawsAll-nil
  DrawsAll-map f g each (x ∷ xs) =
      let rest = DrawsAll-cons (each x) (DrawsAll-map f g each xs) in
      record {
        all = rest.all;
        all_made = rest.all_made;
        all_laid = rest.all_laid;
        count = rest.count ∙ omega arith;
        all_send = rest.all_send;
      }

  pub flat_map-one :
      {A : Type 0} (f : A → Control p) (xs : List A) → flat_map (λ x. f x ∷ []) xs ≡ map f xs
  unfolding flat_map
  flat_map-one f [] = refl
  flat_map-one f (x ∷ xs) = ap (λ ms. f x ∷ ms) (flat_map-one f xs)

  abbrev pub nothing : {A : Type 0} → A → List (Control p)
  nothing x = []

  pub flat_map-none : {A : Type 0} (xs : List A) → flat_map nothing xs ≡ []
  unfolding flat_map
  flat_map-none [] = refl
  flat_map-none (x ∷ xs) = flat_map-none xs

  pub Draws-row :
      {n : ℕ} {ms : List (Control p)} {rs : List (Result (Widget p))} (name : Option String)
      (sizes : Option (List F))
      → Fits p sizes n
      → DrawsAll n ms rs
      → Draws ms (lay_row p name sizes rs)
  unfolding lay_row sent IsLaid
  Draws-row name sizes fit ds = record {
    widget = row name sizes ds.all;
    made = rw ds.all_made refl;
    laid = (subst (Fits p sizes) (sym ds.count) fit, ds.all_laid);
    sends = ds.all_send;
  }

  pub Draws-column :
      {n : ℕ} {ms : List (Control p)} {rs : List (Result (Widget p))} (name : Option String)
      (sizes : Option (List F))
      → Fits p sizes n
      → DrawsAll n ms rs
      → Draws ms (lay_column p name sizes rs)
  unfolding lay_column sent IsLaid
  Draws-column name sizes fit ds = record {
    widget = column name sizes ds.all;
    made = rw ds.all_made refl;
    laid = (subst (Fits p sizes) (sym ds.count) fit, ds.all_laid);
    sends = ds.all_send;
  }

  pub Draws-caption : (text : String) → Draws [] (caption p text)
  unfolding caption sent IsLaid
  Draws-caption text = record { widget = _; made = refl; laid = tt; sends = refl }

  pub Draws-trigger :
      (name : String) (messages : List (Binding p)) (text : Option String)
      → Draws (transmitted p messages) (trigger p name messages text)
  unfolding trigger sent IsLaid
  Draws-trigger name messages text = record { widget = _; made = refl; laid = tt; sends = refl }

  pub Draws-toggle :
      (name : String) (messages : List (Binding p)) (text : Option String)
      → Draws (transmitted p messages) (toggle p name messages text)
  unfolding toggle sent IsLaid
  Draws-toggle name messages text = record { widget = _; made = refl; laid = tt; sends = refl }

  pub Draws-hfader :
      (name : String) (messages : List (Binding p)) (steps : ℕ) (interactive : Bool) {at : Result F}
      {x : F}
      → at ≡ ok x
      → Draws (transmitted p messages) (hfader p name messages steps interactive at)
  unfolding hfader sent IsLaid
  Draws-hfader name messages steps interactive {x} e = record {
    widget = fader_control name 1 steps interactive x messages;
    made = rw e refl;
    laid = tt;
    sends = refl;
  }

  pub Draws-vfader :
      (name : String) (messages : List (Binding p)) {at : Result F} {x : F}
      → at ≡ ok x
      → Draws (transmitted p messages) (vfader p name messages at)
  unfolding vfader sent IsLaid
  Draws-vfader name messages {x} e = record {
    widget = fader_control name 0 11 true x messages;
    made = rw e refl;
    laid = tt;
    sends = refl;
  }

  pub Draws-titled :
      {m : List (Control p)} {r : Result (Widget p)} (text : String) (a b : F)
      → Draws m r
      → Draws m (titled p r text (a ∷ b ∷ []))
  unfolding titled
  Draws-titled text a b d =
      Draws-column none (some (a ∷ b ∷ [])) refl
        (DrawsAll-quiet (Draws-caption text) (DrawsAll-last d))
