-- ===== src/TouchOsc/Surface.antt =====
-- The pages of the TouchOSC surface as trees of controls, page by page, by
-- clients/touchosc/build_layout.py. A fader whose range is empty raises ZeroDivisionError.
pub mod Document
pub mod Draws
pub mod Sends
pub mod Panels
pub mod Agrees
use softcut_py.Base.{
  ℕ, ◌+◌, ◌==◌, nat_eq, string_eq, String, Bool, true, false, Option, none, some, List, [], ◌∷◌,
  ◌++◌, map, if◌then◌else◌, range_from, replicate, ◌||◌,
}
use softcut_py.Base.Int.{ℤ, pos, negsuc, ltb_ℤ, pos_part}
use softcut_py.Base.Exec.{Result, ok, err, and_then, value_error}
use softcut_py.Platform.{Platform}
use softcut_py.TouchOsc.{
  Param, fader, switch, ratio, slew, position_of, underscored, loop_rows, rec_rows, filter_rows,
}
use softcut_py.TouchOsc.Pages.{
  Partial, index_arg, float_arg, string_arg, scaled_arg, unit_span, both_ways,
}
use softcut_py.TouchOsc.Widgets.{
  Widget, Binding, send, send_on_press, receive_only, box, stack, pager, collect, lay_row,
  lay_column, number, caption, titled, hfader, vfader, toggle, trigger, param_caption, control,
  join,
}

module _ (p : Platform) where
  open p use {F, lit, fmul, show_general}

  -- `[label_width] + [2.0] * voices`
  abbrev pub columns : F → ℕ → List F
  columns label_width voices = label_width ∷ replicate voices (lit (pos 2))

  abbrev pub numbered : String → ℕ → String
  numbered stem v = join (stem ∷ number p (v + 1) ∷ [])

  unfoldable pub drawn_row : ℕ → F → Param p → Result (Widget p)
  drawn_row voices label_width param =
      lay_row p (some (underscored param.label)) (some (columns label_width voices))
        (caption p (param_caption p param) ∷ map (control p param) (range_from 0 voices))

  unfoldable pub voice_header : ℕ → F → Result (Widget p)
  voice_header voices label_width =
      lay_row p (some "voices") (some (columns label_width voices))
        (caption p "" ∷ map (λ v. caption p (number p (v + 1))) (range_from 0 voices))

  unfoldable pub drawn_page : String → List (Param p) → ℕ → Result (Widget p)
  drawn_page name params voices =
      let label_width = ratio p (pos 35) 10 in
      lay_column p (some name) (some (ratio p (pos 14) 10 ∷ map (λ param. lit (pos 2)) params))
        (voice_header voices label_width ∷ map (drawn_row voices label_width) params)

  -- A fader of `strip(v)`, for one voice and its value on a range.
  abbrev pub voice_message : String → F × F → ℕ → List (Binding p)
  voice_message address span v = send address (index_arg v ∷ scaled_arg span ∷ []) ∷ []

  abbrev pub flag_button : String → String → ℕ → Result (Widget p)
  flag_button text address v =
      toggle p (numbered text v) (voice_message address (unit_span p) v) (some text)

  -- `strip(v)` of `mix_page`
  unfoldable pub drawn_strip : F → ℕ → Result (Widget p)
  drawn_strip rate v =
      let level =
        vfader p (numbered "level" v) (voice_message "/set/level/cut" (unit_span p) v)
          (position_of p "/set/level/cut" (unit_span p)) in
      let pan_span = both_ways p (lit (pos 1)) in
      let pan =
        hfader p (numbered "pan" v) (voice_message "/set/pan/cut" pan_span v) 11 true
          (position_of p "/set/pan/cut" pan_span) in
      let rate_fader =
        hfader p (numbered "rate" v) (voice_message "/set/param/cut/rate" (both_ways p rate) v) 11
          true (position_of p "/set/param/cut/rate" (both_ways p rate)) in
      let flags = lay_row p (some (numbered "flags" v)) none (
        flag_button "play" "/set/param/cut/play_flag" v
        ∷ flag_button "rec" "/set/param/cut/rec_flag" v
        ∷ flag_button "loop" "/set/param/cut/loop_flag" v
        ∷ []) in
      let thick = ratio p (pos 22) 10 in
      lay_column p (some (numbered "strip" v))
        (some (ratio p (pos 11) 10 ∷ lit (pos 9) ∷ thick ∷ thick ∷ lit (pos 2) ∷ []))
        (caption p (join ("voice " ∷ number p (v + 1) ∷ []))
          ∷ titled p level "level" (lit (pos 1) ∷ lit (pos 9) ∷ [])
          ∷ titled p pan "pan" (lit (pos 1) ∷ lit (pos 4) ∷ [])
          ∷ titled p rate_fader
              (join ("rate  -" ∷ show_general rate ∷ ".." ∷ show_general rate ∷ []))
              (lit (pos 1) ∷ lit (pos 4) ∷ [])
          ∷ flags
          ∷ [])

  unfoldable pub drawn_mix : ℕ → F → Result (Widget p)
  drawn_mix voices rate = lay_row p (some "mix") none (map (drawn_strip rate) (range_from 0 voices))

  -- `matrix(voices, cell, name)`
  unfoldable pub drawn_matrix : ℕ → (ℕ → ℕ → Result (Widget p)) → String → Result (Widget p)
  drawn_matrix voices cell name =
      let label_width = ratio p (pos 16) 10 in
      lay_column p (some name) (some (lit (pos 1) ∷ replicate voices (ratio p (pos 16) 10))) (
        voice_header voices label_width
        ∷ map
            (λ src.
              lay_row p (some (join (name ∷ "_row" ∷ number p (src + 1) ∷ [])))
                (some (columns label_width voices))
                (caption p (number p (src + 1)) ∷ map (cell src) (range_from 0 voices)))
            (range_from 0 voices))
