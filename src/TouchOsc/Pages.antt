-- ===== src/TouchOsc/Pages.antt =====
-- What the controls of the TouchOSC pages send, page by page, by clients/touchosc/build_layout.py. The
-- page of a parameter table has one control for each row and voice.
use softcut_py.Base.{
  ℕ, ◌==◌, nat_eq, string_eq, String, List, [], ◌∷◌, ◌++◌, map, if◌then◌else◌, range_from, ◌||◌,
}
use softcut_py.Base.Int.{ℤ, pos, negsuc, ltb_ℤ, pos_part}
use softcut_py.Base.Exec.{Result, ok, err, value_error}
use softcut_py.Platform.{Platform}
use softcut_py.Osc
use softcut_py.Osc.{handlers}
use softcut_py.TouchOsc.{Param, loop_rows, rec_rows, filter_rows, scaled, fader, switch}

-- `f(x)` for each `x`, one after another
unfoldable pub flat_map : {A B : Type 0} → (A → List B) → List A → List B
flat_map f [] = []
flat_map f (x ∷ xs) = f x ++ flat_map f xs

module _ (p : Platform) where
  open p use {F, lit, fmul}

  -- An argument of a message: a constant, or the control's value on a range.
  pub data Partial : Type 0 where
    index_arg : ℕ → Partial
    -- its text is `f"{x:g}"`
    float_arg : F → Partial
    string_arg : String → Partial
    scaled_arg : F × F → Partial

  -- The address and the arguments of the one message that a control sends.
  abbrev pub Control : Type 0
  Control = String × List Partial

  -- The arguments that are sent with the control's value at `x`.
  unfoldable pub arguments : F → List Partial → List (Osc.Arg p)
  arguments x [] = []
  arguments x (index_arg n ∷ rest) = Osc.int (pos n) ∷ arguments x rest
  arguments x (float_arg y ∷ rest) = Osc.float (p.general y) ∷ arguments x rest
  arguments x (string_arg text ∷ rest) = Osc.str text ∷ arguments x rest
  arguments x (scaled_arg span ∷ rest) = Osc.float (scaled p span x) ∷ arguments x rest

  abbrev pub unit_span : F × F
  unit_span = (lit (pos 0), lit (pos 1))

  abbrev pub both_ways : F → F × F
  both_ways x = (fmul (lit (negsuc 0)) x, x)

  abbrev pub voice_control : String → F × F → ℕ → Control
  voice_control address span v = (address, index_arg v ∷ scaled_arg span ∷ [])

  -- `param_row(param, voices)`
  unfoldable pub param_row : ℕ → Param p → List Control
  param_row voices row = map (voice_control row.address row.span) (range_from 0 voices)

  unfoldable pub param_page : ℕ → List (Param p) → List Control
  unfolding param_row flat_map
  param_page voices rows = flat_map (param_row voices) rows

  -- `strip(v)` of `mix_page`
  unfoldable pub strip : F → ℕ → List Control
  strip rate v =
      voice_control "/set/level/cut" unit_span v
      ∷ voice_control "/set/pan/cut" (both_ways (lit (pos 1))) v
      ∷ voice_control "/set/param/cut/rate" (both_ways rate) v
      ∷ voice_control "/set/param/cut/play_flag" unit_span v
      ∷ voice_control "/set/param/cut/rec_flag" unit_span v
      ∷ voice_control "/set/param/cut/loop_flag" unit_span v
      ∷ []

  unfoldable pub mix_page : ℕ → F → List Control
  unfolding strip flat_map
  mix_page voices rate = flat_map (strip rate) (range_from 0 voices)

  -- `matrix(voices, cell)`
  unfoldable pub matrix : ℕ → (ℕ → ℕ → List Control) → List Control
  unfolding flat_map
  matrix voices cell =
      flat_map (λ row. flat_map (cell row) (range_from 0 voices)) (range_from 0 voices)

  abbrev pub in_cut : ℕ → List Control
  in_cut v = ("/set/level/in_cut", index_arg 0 ∷ index_arg v ∷ scaled_arg unit_span ∷ []) ∷ []

  abbrev pub buffer_buttons : ℕ → List Control
  buffer_buttons v =
      ("/set/param/cut/buffer", index_arg v ∷ index_arg 0 ∷ [])
      ∷ ("/set/param/cut/buffer", index_arg v ∷ index_arg 1 ∷ [])
      ∷ []

  abbrev pub feedback_cell : ℕ → ℕ → List Control
  feedback_cell src dst =
      ("/set/level/cut_cut", index_arg src ∷ index_arg dst ∷ scaled_arg unit_span ∷ []) ∷ []

  unfoldable pub routing_page : ℕ → List Control
  unfolding param_row matrix flat_map
  routing_page voices =
      param_row voices (fader p "level" "/set/level/cut" unit_span)
      ++ (param_row voices (fader p "pan" "/set/pan/cut" (both_ways (lit (pos 1))))
          ++ (param_row voices (switch p "enabled" "/set/enabled/cut")
              ++ (flat_map in_cut (range_from 0 voices)
                  ++ (flat_map buffer_buttons (range_from 0 voices)
                      ++ matrix voices feedback_cell))))

  -- `sync_cell`: a voice is not synced to itself.
  abbrev pub sync_cell : ℕ → ℕ → List Control
  sync_cell dst src =
      if dst == src
      then []
      else (
        "/set/param/cut/voice_sync",
        index_arg dst ∷ index_arg src ∷ float_arg (lit (pos 0)) ∷ [],
      )
        ∷ []

  -- The readout of the phases only receives, and is not among what the page sends.
  unfoldable pub sync_page : ℕ → List Control
  unfolding param_row matrix
  sync_page voices =
      param_row voices
        (fader p "phase quant" "/set/param/cut/phase_quant" (lit (pos 0), lit (pos 4)))
      ++ (param_row voices
            (fader p "phase offset" "/set/param/cut/phase_offset" (both_ways (lit (pos 1))))
          ++ ((("/poll/start/cut/phase", []) ∷ ("/poll/stop/cut/phase", []) ∷ [])
              ++ matrix voices sync_cell))

  unfoldable pub system_page : F → String → String → List Control
  system_page max_time read_file write_file =
      let zero_arg = float_arg (lit (pos 0)) in
      let all_arg = float_arg (lit (negsuc 0)) in
      ("/softcut/buffer/clear", [])
      ∷ ("/softcut/buffer/clear_channel", index_arg 0 ∷ [])
      ∷ ("/softcut/buffer/clear_channel", index_arg 1 ∷ [])
      ∷ ("/softcut/buffer/clear_region", zero_arg ∷ float_arg max_time ∷ [])
      ∷ ("/softcut/buffer/clear_region_channel", index_arg 0 ∷ zero_arg ∷ float_arg max_time ∷ [])
      ∷ ("/softcut/buffer/clear_region_channel", index_arg 1 ∷ zero_arg ∷ float_arg max_time ∷ [])
      ∷ (
        "/softcut/buffer/read_mono",
        string_arg read_file ∷ zero_arg ∷ zero_arg ∷ all_arg ∷ index_arg 0 ∷ index_arg 0 ∷ [],
      )
      ∷ ("/softcut/buffer/read_stereo", string_arg read_file ∷ zero_arg ∷ zero_arg ∷ all_arg ∷ [])
      ∷ (
        "/softcut/buffer/write_mono",
        string_arg write_file ∷ zero_arg ∷ all_arg ∷ index_arg 0 ∷ [],
      )
      ∷ ("/softcut/buffer/write_stereo", string_arg write_file ∷ zero_arg ∷ all_arg ∷ [])
      ∷ ("/softcut/reset", [])
      ∷ ("/hello", [])
      ∷ ("/quit", [])
      ∷ []

  -- `build(options)`: the controls of all pages, in their order.
  unfoldable pub build : ℤ → F → F → String → String → Result (List Control)
  unfolding mix_page param_page filter_rows routing_page sync_page system_page
  build voices max_time rate read_file write_file =
      if ltb_ℤ voices (pos 1) || ltb_ℤ (pos 6) voices
      then err value_error
      else let n = pos_part voices in
        ok (
          mix_page n rate
          ++ (param_page n (loop_rows p max_time rate)
              ++ (param_page n (rec_rows p)
                  ++ (param_page n (filter_rows p "pre")
                      ++ (param_page n (filter_rows p "post")
                          ++ (routing_page n
                              ++ (sync_page n ++ system_page max_time read_file write_file)))))))
