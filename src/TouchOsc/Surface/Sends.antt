-- ===== src/TouchOsc/Surface/Sends.antt =====
-- The pages of clients/touchosc/build_layout.py as trees, and the lists of what they transmit.
use softcut_py.Base.{
  ℕ, zero, suc, ◌+◌, ◌≡◌, refl, ◌∙◌, String, true, false, Bool-cases, inl, inr, Option, none, some,
  List, [], ◌∷◌, map, length, length-replicate, length-map, range_from, replicate, arith, nat_eq,
  string_eq,
}
use softcut_py.Base.Int.{pos}
use softcut_py.Base.Dict.{lookup}
use softcut_py.Base.Exec.{Result, ok}
use softcut_py.Platform.{Platform}
use softcut_py.TouchOsc.{Param, ratio, position_of, min_float, max_float, travel, voice_defaults}
use softcut_py.TouchOsc.Pages.{
  Control, flat_map, param_row, param_page, strip, mix_page, matrix, unit_span, both_ways,
  voice_control,
}
use softcut_py.TouchOsc.Widgets.{Widget, lay_row, caption, number, control, transmitted}
use softcut_py.TouchOsc.Surface.{
  columns, numbered, voice_message, flag_button, drawn_row, voice_header, drawn_page, drawn_strip,
  drawn_mix, drawn_matrix,
}
use softcut_py.TouchOsc.Surface.Draws.{
  Draws, DrawsAll, Draws-eq, DrawsAll-nil, DrawsAll-cons, DrawsAll-quiet, DrawsAll-map,
  flat_map-one, flat_map-none, nothing, Draws-row, Draws-column, Draws-caption, Draws-toggle,
  Draws-hfader, Draws-vfader, Draws-titled,
}

length-range_from : (i n : ℕ) → length (range_from i n) ≡ n
length-range_from i zero = refl
length-range_from i (suc n) = omega (arith, length-range_from (suc i) n)

module _ (p : Platform) where
  open p use {F, lit, fsub, fdiv, feq}

  -- The ends of a range differ.
  abbrev pub HasRoom : F × F → Type 0
  HasRoom (lo, hi) = feq (fsub hi lo) (lit (pos 0)) ≡ false

  pub position_of-HasRoom :
      (address : String) (span : F × F)
      → HasRoom span
      → (x : F) × (position_of p address span ≡ ok x)
  unfolding position_of travel
  position_of-HasRoom address (lo, hi) room = by_default (lookup address (voice_defaults p)) refl
    where
      by_default :
          (d : Option F)
          → lookup address (voice_defaults p) ≡ d
          → (x : F) × (position_of p address (lo, hi) ≡ ok x)
      by_default none found = (lit (pos 0), rw (found, position_of) refl)
      by_default (some d) found = (
        min_float p (lit (pos 1)) (max_float p (lit (pos 0)) (fdiv (fsub d lo) (fsub hi lo))),
        rw (found, position_of, room) refl,
      )

  abbrev pub RowsOpen : List (Param p) → Type 0
  RowsOpen [] = Unit {0}
  RowsOpen (param ∷ params) = HasRoom param.span × RowsOpen params

  control-Draws :
      (param : Param p) (v : ℕ)
      → HasRoom param.span
      → Draws p (voice_control p param.address param.span v ∷ []) (control p param v)
  unfolding control transmitted
  control-Draws param v room = elim (Bool-cases param.toggle) [
    | inl latching ↦ rw (latching, control) (Draws-toggle p _ _ (some ""))
    | inr sliding ↦
        rw (sliding, control)
          (Draws-hfader p _ _ 11 true (position_of-HasRoom param.address param.span room).1)
  ]

  columns-fit :
      (width : F) (voices : ℕ) → length (columns p width voices) ≡ length (range_from 0 voices) + 1
  columns-fit width voices =
      let a = length-replicate voices (lit (pos 2)) in
      let b = length-range_from 0 voices in omega (arith, a, b)

  -- A row with a caption and a cell for each voice.
  pub voice_row-Draws :
      (name text : String) (width : F) (voices : ℕ) (messages : ℕ → List (Control p))
      (cell : ℕ → Result (Widget p))
      → ((v : ℕ) → Draws p (messages v) (cell v))
      → Draws p (flat_map messages (range_from 0 voices)) (
          lay_row p
            (some name)
            (some (columns p width voices))
            (caption p text ∷ map cell (range_from 0 voices)))
  voice_row-Draws name text width voices messages cell each =
      Draws-row p (some name) (some (columns p width voices)) (columns-fit width voices) (
        DrawsAll-quiet p (Draws-caption p text)
          (DrawsAll-map p messages cell each (range_from 0 voices)))

  pub drawn_row-Draws :
      (voices : ℕ) (width : F) (param : Param p)
      → HasRoom param.span
      → Draws p (param_row p voices param) (drawn_row p voices width param)
  unfolding drawn_row param_row
  drawn_row-Draws voices width param room =
      Draws-eq p
        (voice_row-Draws _ _ width voices (λ v. voice_control p param.address param.span v ∷ [])
          (control p param) (λ v. control-Draws param v room))
        (flat_map-one p (voice_control p param.address param.span) (range_from 0 voices))

  pub voice_header-Draws : (voices : ℕ) (width : F) → Draws p [] (voice_header p voices width)
  unfolding voice_header
  voice_header-Draws voices width =
      Draws-eq p
        (voice_row-Draws "voices" "" width voices (nothing p) (λ v. caption p (number p (v + 1)))
          (λ v. Draws-caption p (number p (v + 1))))
        (flat_map-none p (range_from 0 voices))

  rows-DrawsAll :
      (voices : ℕ) (width : F) (params : List (Param p))
      → RowsOpen params
      → DrawsAll p
          (length params)
          (flat_map (param_row p voices) params)
          (map (drawn_row p voices width) params)
  unfolding flat_map
  rows-DrawsAll voices width [] open_rows = DrawsAll-nil p
  rows-DrawsAll voices width (param ∷ params) (room, open_rows) =
      let rest =
        DrawsAll-cons p (drawn_row-Draws voices width param room)
          (rows-DrawsAll voices width params open_rows) in
      record {
        all = rest.all;
        all_made = rest.all_made;
        all_laid = rest.all_laid;
        count = rest.count ∙ omega arith;
        all_send = rest.all_send;
      }

  pub drawn_page-Draws :
      (name : String) (params : List (Param p)) (voices : ℕ)
      → RowsOpen params
      → Draws p (param_page p voices params) (drawn_page p name params voices)
  unfolding drawn_page param_page
  drawn_page-Draws name params voices open_rows =
      let size = length-map params (λ (param : Param p). lit (pos 2)) in
      Draws-column p (some name) _ (omega (arith, size))
        (DrawsAll-quiet p (voice_header-Draws voices _) (rows-DrawsAll voices _ params open_rows))

  flag_button-Draws :
      (text address : String) (v : ℕ)
      → Draws p (voice_control p address (unit_span p) v ∷ []) (flag_button p text address v)
  unfolding transmitted
  flag_button-Draws text address v =
      Draws-toggle p (numbered p text v) (voice_message p address (unit_span p) v) (some text)

  pub drawn_strip-Draws :
      (rate : F) (v : ℕ)
      → HasRoom (unit_span p)
      → HasRoom (both_ways p (lit (pos 1)))
      → HasRoom (both_ways p rate)
      → Draws p (strip p rate v) (drawn_strip p rate v)
  unfolding drawn_strip strip transmitted
  drawn_strip-Draws rate v unit both rates =
      let level =
        Draws-vfader p (numbered p "level" v) (voice_message p "/set/level/cut" (unit_span p) v)
          (position_of-HasRoom "/set/level/cut" (unit_span p) unit).1 in
      let pan =
        Draws-hfader p (numbered p "pan" v)
          (voice_message p "/set/pan/cut" (both_ways p (lit (pos 1))) v) 11 true
          (position_of-HasRoom "/set/pan/cut" (both_ways p (lit (pos 1))) both).1 in
      let rate_fader =
        Draws-hfader p (numbered p "rate" v)
          (voice_message p "/set/param/cut/rate" (both_ways p rate) v) 11 true
          (position_of-HasRoom "/set/param/cut/rate" (both_ways p rate) rates).1 in
      let flags = Draws-row p (some (numbered p "flags" v)) none tt (
        DrawsAll-cons p (flag_button-Draws "play" "/set/param/cut/play_flag" v) (
          DrawsAll-cons p (flag_button-Draws "rec" "/set/param/cut/rec_flag" v) (
            DrawsAll-cons p (flag_button-Draws "loop" "/set/param/cut/loop_flag" v)
              (DrawsAll-nil p)))) in
      Draws-column p (some (numbered p "strip" v)) _ refl (
        DrawsAll-quiet p (Draws-caption p _) (
          DrawsAll-cons p (Draws-titled p "level" _ _ level) (
            DrawsAll-cons p (Draws-titled p "pan" _ _ pan) (
              DrawsAll-cons p (Draws-titled p _ _ _ rate_fader)
                (DrawsAll-cons p flags (DrawsAll-nil p))))))

  pub drawn_mix-Draws :
      (voices : ℕ) (rate : F)
      → HasRoom (unit_span p)
      → HasRoom (both_ways p (lit (pos 1)))
      → HasRoom (both_ways p rate)
      → Draws p (mix_page p voices rate) (drawn_mix p voices rate)
  unfolding drawn_mix mix_page
  drawn_mix-Draws voices rate unit both rates = Draws-row p (some "mix") none tt (
      DrawsAll-map p (strip p rate) (drawn_strip p rate)
        (λ v. drawn_strip-Draws rate v unit both rates) (range_from 0 voices))

  pub drawn_matrix-Draws :
      (voices : ℕ) (cell : ℕ → ℕ → List (Control p)) (drawn : ℕ → ℕ → Result (Widget p))
      (name : String)
      → ((a b : ℕ) → Draws p (cell a b) (drawn a b))
      → Draws p (matrix p voices cell) (drawn_matrix p voices drawn name)
  unfolding drawn_matrix matrix
  drawn_matrix-Draws voices cell drawn name each =
      let rows = length-range_from 0 voices in
      let sizes = length-replicate voices (ratio p (pos 16) 10) in
      Draws-column p (some name) (some (lit (pos 1) ∷ replicate voices (ratio p (pos 16) 10)))
        (omega (arith, rows, sizes))
        (DrawsAll-quiet p (voice_header-Draws voices (ratio p (pos 16) 10)) (
          DrawsAll-map p (λ a. flat_map (cell a) (range_from 0 voices)) _
            (λ a. voice_row-Draws _ _ (ratio p (pos 16) 10) voices (cell a) (drawn a) (each a))
            (range_from 0 voices)))
