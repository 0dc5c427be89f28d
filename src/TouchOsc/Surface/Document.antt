-- ===== src/TouchOsc/Surface/Document.antt =====
-- The routing, sync and system pages, and the whole document, by clients/touchosc/build_layout.py. What
-- py2tosc makes of the tree (`resolve`, `validate`, `save`) is left out.
use softcut_py.Base.{
  ℕ, ◌+◌, ◌==◌, nat_eq, string_eq, String, true, false, none, some, List, [], ◌∷◌, map,
  if◌then◌else◌, range_from, ◌||◌,
}
use softcut_py.Base.Int.{ℤ, pos, negsuc, ltb_ℤ, pos_part}
use softcut_py.Base.Exec.{Result, ok, err, and_then, value_error}
use softcut_py.Platform.{Platform}
use softcut_py.TouchOsc.{fader, switch, ratio, position_of, loop_rows, rec_rows, filter_rows}
use softcut_py.TouchOsc.Pages.{
  Partial, index_arg, float_arg, string_arg, scaled_arg, unit_span, both_ways,
}
use softcut_py.TouchOsc.Widgets.{
  Widget, send, send_on_press, receive_only, box, stack, pager, widgets, no_widget, collect,
  lay_row, lay_column, number, caption, hfader, trigger, join,
}
use softcut_py.TouchOsc.Surface.{
  columns, numbered, drawn_row, voice_header, drawn_page, drawn_mix, drawn_matrix,
}

module _ (p : Platform) where
  open p use {F, lit, show_general}

  abbrev pub pair_name : String → ℕ → ℕ → String
  pair_name stem a b = join (stem ∷ number p (a + 1) ∷ "_" ∷ number p (b + 1) ∷ [])

  -- A button that sends constants when it is pressed.
  abbrev pub press : String → String → List (Partial p) → String → Result (Widget p)
  press name address args text = trigger p name (send_on_press address args ∷ []) (some text)

  abbrev pub in_fader : ℕ → Result (Widget p)
  in_fader v =
      hfader p (numbered p "in_cut" v)
        (send "/set/level/in_cut" (index_arg 0 ∷ index_arg v ∷ scaled_arg (unit_span p) ∷ []) ∷ [])
        11 true (position_of p "/set/level/in_cut" (unit_span p))

  abbrev pub buffer_button : ℕ → ℕ → Result (Widget p)
  buffer_button v b =
      press (pair_name "buf" b v) "/set/param/cut/buffer" (index_arg v ∷ index_arg b ∷ [])
        (number p (b + 1))

  abbrev pub buffer_cell : ℕ → Result (Widget p)
  buffer_cell v =
      lay_row p (some (numbered p "buffer" v)) none (map (buffer_button v) (range_from 0 2))

  abbrev pub drawn_feedback : ℕ → ℕ → Result (Widget p)
  drawn_feedback src dst =
      hfader p (pair_name "cut_cut" src dst)
        (send "/set/level/cut_cut" (index_arg src ∷ index_arg dst ∷ scaled_arg (unit_span p) ∷ [])
          ∷ [])
        5 true (ok (lit (pos 0)))

  -- `routing_page(voices)`
  unfoldable pub drawn_routing : ℕ → Result (Widget p)
  drawn_routing voices =
      let wide = lit (pos 3) in
      let thick = ratio p (pos 16) 10 in
      let thin = ratio p (pos 12) 10 in
      lay_column p (some "routing")
        (some (thin ∷ thick ∷ thick ∷ thick ∷ thick ∷ thick ∷ thin ∷ lit (pos 9) ∷ []))
        (voice_header p voices wide
          ∷ drawn_row p voices wide (fader p "level" "/set/level/cut" (unit_span p))
          ∷ drawn_row p voices wide (fader p "pan" "/set/pan/cut" (both_ways p (lit (pos 1))))
          ∷ drawn_row p voices wide (switch p "enabled" "/set/enabled/cut")
          ∷ lay_row p (some "in_cut") (some (columns p wide voices))
              (caption p "input -> cut  0..1" ∷ map in_fader (range_from 0 voices))
          ∷ lay_row p (some "buffer") (some (columns p wide voices))
              (caption p "buffer" ∷ map buffer_cell (range_from 0 voices))
          ∷ caption p "cut -> cut feedback   row = source, column = destination"
          ∷ drawn_matrix p voices drawn_feedback "cut_cut"
          ∷ [])

  -- A display of the phases that the server reports.
  abbrev pub readout : F → ℕ → Result (Widget p)
  readout max_time v =
      hfader p (numbered p "phase" v)
        (receive_only "/poll/softcut/phase" (index_arg v ∷ scaled_arg (lit (pos 0), max_time) ∷ [])
          ∷ [])
        11 false (ok (lit (pos 0)))

  abbrev pub sync_button : ℕ → ℕ → Result (Widget p)
  sync_button dst src =
      if dst == src
      then (and_then (collect p (ok (box (pair_name "sync" dst src)) ∷ caption p "-" ∷ []))
          λ ws. ok (stack none none ws))
      else press (pair_name "sync" dst src) "/set/param/cut/voice_sync"
          (index_arg dst ∷ index_arg src ∷ float_arg (lit (pos 0)) ∷ [])
          (join (number p (dst + 1) ∷ " to " ∷ number p (src + 1) ∷ []))

  -- `sync_page(voices, max_time)`
  unfoldable pub drawn_sync : ℕ → F → Result (Widget p)
  drawn_sync voices max_time =
      let wide = lit (pos 3) in
      let thick = ratio p (pos 16) 10 in
      let thin = ratio p (pos 12) 10 in
      lay_column p (some "sync")
        (some (thin ∷ thick ∷ thick ∷ thick ∷ ratio p (pos 14) 10 ∷ thin ∷ lit (pos 9) ∷ []))
        (voice_header p voices wide
          ∷ drawn_row p voices wide
              (fader p "phase quant" "/set/param/cut/phase_quant" (lit (pos 0), lit (pos 4)))
          ∷ drawn_row p voices wide
              (fader p "phase offset" "/set/param/cut/phase_offset" (both_ways p (lit (pos 1))))
          ∷ lay_row p (some "phase") (some (columns p wide voices)) (
              caption p (join ("phase  0.." ∷ show_general max_time ∷ []))
              ∷ map (readout max_time) (range_from 0 voices))
          ∷ lay_row p (some "poll") (some (lit (pos 2) ∷ lit (pos 2) ∷ lit (pos 7) ∷ [])) (
              press "poll_start" "/poll/start/cut/phase" [] "poll on"
              ∷ press "poll_stop" "/poll/stop/cut/phase" [] "poll off"
              ∷ caption p "phase replies go to the server's reply host and port"
              ∷ [])
          ∷ caption p "voice sync   row = voice moved, column = voice followed"
          ∷ drawn_matrix p voices sync_button "voice_sync"
          ∷ [])

  abbrev pub clear_region_button : F → ℕ → Result (Widget p)
  clear_region_button max_time b =
      press (numbered p "clear_region" b) "/softcut/buffer/clear_region_channel"
        (index_arg b ∷ float_arg (lit (pos 0)) ∷ float_arg max_time ∷ [])
        (join ("clear " ∷ number p (b + 1) ∷ ": 0.." ∷ show_general max_time ∷ "s" ∷ []))

  -- `system_page(max_time, read_file, write_file)`
  unfoldable pub drawn_system : F → String → String → Result (Widget p)
  drawn_system max_time read_file write_file =
      let zero_arg = float_arg (lit (pos 0)) in
      let all_arg = float_arg (lit (negsuc 0)) in
      let one = lit (pos 1) in
      let thick = ratio p (pos 24) 10 in
      let buffers = lay_row p (some "clears") none (
        press "clear" "/softcut/buffer/clear" [] "clear both"
        ∷ press "clear1" "/softcut/buffer/clear_channel" (index_arg 0 ∷ []) "clear 1"
        ∷ press "clear2" "/softcut/buffer/clear_channel" (index_arg 1 ∷ []) "clear 2"
        ∷ press "clear_region" "/softcut/buffer/clear_region" (zero_arg ∷ float_arg max_time ∷ [])
            (join ("clear 0.." ∷ show_general max_time ∷ "s" ∷ []))
        ∷ map (clear_region_button max_time) (range_from 0 2)) in
      let disk = lay_row p (some "disk") none (
        press "read_mono" "/softcut/buffer/read_mono"
          (string_arg read_file ∷ zero_arg ∷ zero_arg ∷ all_arg ∷ index_arg 0 ∷ index_arg 0 ∷ [])
          "read mono"
        ∷ press "read_stereo" "/softcut/buffer/read_stereo"
            (string_arg read_file ∷ zero_arg ∷ zero_arg ∷ all_arg ∷ []) "read stereo"
        ∷ press "write_mono" "/softcut/buffer/write_mono"
            (string_arg write_file ∷ zero_arg ∷ all_arg ∷ index_arg 0 ∷ []) "write mono"
        ∷ press "write_stereo" "/softcut/buffer/write_stereo"
            (string_arg write_file ∷ zero_arg ∷ all_arg ∷ []) "write stereo"
        ∷ []) in
      let lifecycle = lay_row p (some "lifecycle") none (
        press "reset" "/softcut/reset" [] "reset voices"
        ∷ press "hello" "/hello" [] "hello"
        ∷ press "quit" "/quit" [] "quit server"
        ∷ []) in
      lay_column p (some "system") (some (one ∷ thick ∷ one ∷ thick ∷ one ∷ thick ∷ one ∷ [])) (
        caption p "buffers"
        ∷ buffers
        ∷ caption p (join ("disk    read " ∷ read_file ∷ "    write " ∷ write_file ∷ []))
        ∷ disk
        ∷ caption p "server"
        ∷ lifecycle
        ∷ caption p "reset restores voice parameters and routing; buffer contents are kept"
        ∷ [])

  pub record Options : Type 0 where
    pub voices : ℤ
    pub size : ℤ × ℤ
    pub max_time : F
    pub rate : F
    pub read_file : String
    pub write_file : String
    pub tabbar_size : F

  -- `Options()`
  abbrev pub default_options : Options
  default_options = record {
    voices = pos 6;
    size = (pos 1024, pos 768);
    max_time = lit (pos 32);
    rate = lit (pos 2);
    read_file = "loop.wav";
    write_file = "softcut-out.wav";
    tabbar_size = lit (pos 42);
  }

  -- The pages in the order of their tabs.
  unfoldable pub drawn_pages : ℕ → Options → List (Result (Widget p))
  drawn_pages n o =
      drawn_mix p n o.rate
      ∷ drawn_page p "loop" (loop_rows p o.max_time o.rate) n
      ∷ drawn_page p "rec" (rec_rows p) n
      ∷ drawn_page p "pre" (filter_rows p "pre") n
      ∷ drawn_page p "post" (filter_rows p "post") n
      ∷ drawn_routing n
      ∷ drawn_sync n o.max_time
      ∷ drawn_system o.max_time o.read_file o.write_file
      ∷ []

  -- `build(options)`: the root of the document.
  unfoldable pub document : Options → Result (Widget p)
  document o =
      if ltb_ℤ o.voices (pos 1) || ltb_ℤ (pos 6) o.voices
      then err value_error
      else and_then (collect p (drawn_pages (pos_part o.voices) o)) λ pages. ok (
          stack (some "softcut") (some (o.size.0, o.size.1))
            (widgets (pager "pages" o.tabbar_size pages) no_widget))
