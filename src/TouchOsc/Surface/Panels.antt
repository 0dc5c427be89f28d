-- ===== src/TouchOsc/Surface/Panels.antt =====
-- The routing, sync and system pages of clients/touchosc/build_layout.py, and the lists of what they transmit.
use softcut_py.Base.{
  ℕ, refl, String, true, false, Bool-cases, inl, inr, none, some, List, [], ◌∷◌, range_from, ◌==◌,
  nat_eq,
}
use softcut_py.Base.Int.{pos}
use softcut_py.Platform.{Platform}
use softcut_py.TouchOsc.{fader, switch}
use softcut_py.TouchOsc.Pages.{
  Partial, index_arg, float_arg, flat_map, routing_page, sync_page, system_page, unit_span,
  both_ways, in_cut, buffer_buttons, feedback_cell, sync_cell,
}
use softcut_py.TouchOsc.Widgets.{
  IsLaid, sent, box, text_label, collect, caption, transmitted, send_on_press, stack, widgets,
  no_widget,
}
use softcut_py.TouchOsc.Surface.{numbered}
use softcut_py.TouchOsc.Surface.Document.{
  drawn_routing, drawn_sync, drawn_system, in_fader, buffer_cell, drawn_feedback, readout,
  sync_button, press, clear_region_button, pair_name,
}
use softcut_py.TouchOsc.Surface.Draws.{
  Draws, Draws-eq, DrawsAll-nil, DrawsAll-cons, DrawsAll-quiet, DrawsAll-map, DrawsAll-last,
  flat_map-none, nothing, Draws-row, Draws-column, Draws-caption, Draws-trigger, Draws-hfader,
}
use softcut_py.TouchOsc.Surface.Sends.{
  HasRoom, position_of-HasRoom, voice_row-Draws, drawn_row-Draws, voice_header-Draws,
  drawn_matrix-Draws,
}

module _ (p : Platform) where
  open p use {F, lit}

  press-Draws :
      (name address : String) (args : List (Partial p)) (text : String)
      → Draws p ((address, args) ∷ []) (press p name address args text)
  unfolding transmitted
  press-Draws name address args text =
      Draws-trigger p name (send_on_press address args ∷ []) (some text)

  buffer_cell-Draws : (v : ℕ) → Draws p (buffer_buttons p v) (buffer_cell p v)
  unfolding flat_map
  buffer_cell-Draws v = Draws-row p (some (numbered p "buffer" v)) none tt (
      DrawsAll-cons p (press-Draws _ "/set/param/cut/buffer" _ _)
        (DrawsAll-cons p (press-Draws _ "/set/param/cut/buffer" _ _) (DrawsAll-nil p)))

  in_fader-Draws : (v : ℕ) → HasRoom p (unit_span p) → Draws p (in_cut p v) (in_fader p v)
  unfolding transmitted
  in_fader-Draws v room =
      Draws-hfader p _ _ 11 true (position_of-HasRoom p "/set/level/in_cut" (unit_span p) room).1

  drawn_feedback-Draws : (a b : ℕ) → Draws p (feedback_cell p a b) (drawn_feedback p a b)
  unfolding transmitted
  drawn_feedback-Draws a b = Draws-hfader p _ _ 5 true refl

  pub drawn_routing-Draws :
      (voices : ℕ)
      → HasRoom p (unit_span p)
      → HasRoom p (both_ways p (lit (pos 1)))
      → Draws p (routing_page p voices) (drawn_routing p voices)
  unfolding drawn_routing routing_page
  drawn_routing-Draws voices unit both =
      let wide = lit (pos 3) in
      Draws-column p (some "routing") _ refl (
        DrawsAll-quiet p (voice_header-Draws p voices wide) (
          DrawsAll-cons p
            (drawn_row-Draws p voices wide (fader p "level" "/set/level/cut" (unit_span p)) unit)
            (DrawsAll-cons p
              (drawn_row-Draws p voices wide
                (fader p "pan" "/set/pan/cut" (both_ways p (lit (pos 1)))) both)
              (DrawsAll-cons p
                (drawn_row-Draws p voices wide (switch p "enabled" "/set/enabled/cut") unit)
                (DrawsAll-cons p
                  (voice_row-Draws p "in_cut" "input -> cut  0..1" wide voices (in_cut p)
                    (in_fader p) (λ v. in_fader-Draws v unit))
                  (DrawsAll-cons p
                    (voice_row-Draws p "buffer" "buffer" wide voices (buffer_buttons p)
                      (buffer_cell p) buffer_cell-Draws)
                    (DrawsAll-quiet p (Draws-caption p _) (
                      DrawsAll-last p (
                        drawn_matrix-Draws p voices (feedback_cell p) (drawn_feedback p) "cut_cut"
                          drawn_feedback-Draws)))))))))

  readout-Draws : (max_time : F) (v : ℕ) → Draws p (nothing p v) (readout p max_time v)
  unfolding transmitted
  readout-Draws max_time v = Draws-hfader p _ _ 11 false refl

  sync_button-Draws : (dst src : ℕ) → Draws p (sync_cell p dst src) (sync_button p dst src)
  unfolding collect caption IsLaid sent
  sync_button-Draws dst src = elim (Bool-cases (dst == src)) [
    | inl same ↦ rw same (record {
      widget =
          stack none none
            (widgets (box (pair_name p "sync" dst src)) (widgets (text_label "-" "-") no_widget));
      made = refl;
      laid = (tt, (tt, tt));
      sends = refl;
    })
    | inr other ↦ rw other (press-Draws _ "/set/param/cut/voice_sync" _ _)
  ]

  pub drawn_sync-Draws :
      (voices : ℕ) (max_time : F)
      → HasRoom p (both_ways p (lit (pos 1)))
      → HasRoom p (lit (pos 0), lit (pos 4))
      → Draws p (sync_page p voices) (drawn_sync p voices max_time)
  unfolding drawn_sync sync_page
  drawn_sync-Draws voices max_time both quant =
      let wide = lit (pos 3) in
      let phases =
        Draws-eq p
          (voice_row-Draws p "phase" _ wide voices (nothing p) (readout p max_time)
            (readout-Draws max_time))
          (flat_map-none p (range_from 0 voices)) in
      let poll =
        Draws-row p (some "poll") (some (lit (pos 2) ∷ lit (pos 2) ∷ lit (pos 7) ∷ [])) refl (
          DrawsAll-cons p (press-Draws "poll_start" "/poll/start/cut/phase" [] "poll on") (
            DrawsAll-cons p (press-Draws "poll_stop" "/poll/stop/cut/phase" [] "poll off")
              (DrawsAll-cons p (Draws-caption p _) (DrawsAll-nil p)))) in
      Draws-column p (some "sync") _ refl (
        DrawsAll-quiet p (voice_header-Draws p voices wide) (
          DrawsAll-cons p
            (drawn_row-Draws p voices wide
              (fader p "phase quant" "/set/param/cut/phase_quant" (lit (pos 0), lit (pos 4))) quant)
            (DrawsAll-cons p
              (drawn_row-Draws p voices wide
                (fader p "phase offset" "/set/param/cut/phase_offset" (both_ways p (lit (pos 1))))
                both)
              (DrawsAll-quiet p phases (
                DrawsAll-cons p poll (
                  DrawsAll-quiet p (Draws-caption p _) (
                    DrawsAll-last p (
                      drawn_matrix-Draws p voices (sync_cell p) (sync_button p) "voice_sync"
                        sync_button-Draws))))))))

  pub drawn_system-Draws :
      (max_time : F) (read_file write_file : String)
      → Draws p
          (system_page p max_time read_file write_file)
          (drawn_system p max_time read_file write_file)
  unfolding drawn_system system_page flat_map
  drawn_system-Draws max_time read_file write_file =
      let regions =
        DrawsAll-map p
          (λ b.
            (
              "/softcut/buffer/clear_region_channel",
              index_arg b ∷ float_arg (lit (pos 0)) ∷ float_arg max_time ∷ [],
            )
            ∷ [])
          (clear_region_button p max_time) (λ b. press-Draws _ _ _ _) (range_from 0 2) in
      let buffers = Draws-row p (some "clears") none tt (
        DrawsAll-cons p (press-Draws _ "/softcut/buffer/clear" _ _) (
          DrawsAll-cons p (press-Draws _ "/softcut/buffer/clear_channel" _ _) (
            DrawsAll-cons p (press-Draws _ "/softcut/buffer/clear_channel" _ _)
              (DrawsAll-cons p (press-Draws _ "/softcut/buffer/clear_region" _ _) regions)))) in
      let disk = Draws-row p (some "disk") none tt (
        DrawsAll-cons p (press-Draws _ "/softcut/buffer/read_mono" _ _) (
          DrawsAll-cons p (press-Draws _ "/softcut/buffer/read_stereo" _ _) (
            DrawsAll-cons p (press-Draws _ "/softcut/buffer/write_mono" _ _) (
              DrawsAll-cons p (press-Draws _ "/softcut/buffer/write_stereo" _ _)
                (DrawsAll-nil p))))) in
      let lifecycle = Draws-row p (some "lifecycle") none tt (
        DrawsAll-cons p (press-Draws "reset" "/softcut/reset" [] "reset voices") (
          DrawsAll-cons p (press-Draws "hello" "/hello" [] "hello")
            (DrawsAll-cons p (press-Draws "quit" "/quit" [] "quit server") (DrawsAll-nil p)))) in
      Draws-column p (some "system") _ refl (
        DrawsAll-quiet p (Draws-caption p _) (
          DrawsAll-cons p buffers (
            DrawsAll-quiet p (Draws-caption p _) (
              DrawsAll-cons p disk (
                DrawsAll-quiet p (Draws-caption p _) (
                  DrawsAll-cons p lifecycle
                    (DrawsAll-quiet p (Draws-caption p _) (DrawsAll-nil p))))))))
