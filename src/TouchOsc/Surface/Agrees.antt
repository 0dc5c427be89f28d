-- ===== src/TouchOsc/Surface/Agrees.antt =====
-- The document of clients/touchosc/build_layout.py, and the list of what its pages transmit.
use softcut_py.Base.{ℕ, ◌≡◌, refl, ◌∙◌, Bool, true, false, some, List, ◌++◌, nat_eq, ◌||◌}
use mathlib.Core.List.{append-nil}
use softcut_py.Base.Int.{pos, ltb_ℤ, pos_part}
use softcut_py.Base.Exec.{ok, ok-injective}
use softcut_py.Platform.{Platform}
use softcut_py.TouchOsc.{loop_rows, rec_rows, filter_rows, pre_fc, post_fc, filter_rq, rec_offset}
use softcut_py.TouchOsc.Pages.{
  Control, param_page, mix_page, routing_page, sync_page, system_page, unit_span, both_ways, build,
}
use softcut_py.TouchOsc.Widgets.{Widget, IsLaid, sent, stack, pager, widgets, no_widget}
use softcut_py.TouchOsc.Surface.Document.{Options, document, drawn_pages}
use softcut_py.TouchOsc.Surface.Draws.{DrawsAll, DrawsAll-cons, DrawsAll-last}
use softcut_py.TouchOsc.Surface.Panels.{drawn_routing-Draws, drawn_sync-Draws, drawn_system-Draws}
use softcut_py.TouchOsc.Surface.Sends.{HasRoom, drawn_page-Draws, drawn_mix-Draws}

module _ (p : Platform) where
  open p use {F, lit}

  -- The ends of each fader's range differ.
  pub record HasRanges (o : Options p) : Type 0 where
    pub unit_room : HasRoom p (unit_span p)
    pub pan_room : HasRoom p (both_ways p (lit (pos 1)))
    pub rate_room : HasRoom p (both_ways p o.rate)
    pub time_room : HasRoom p (lit (pos 0), o.max_time)
    pub quant_room : HasRoom p (lit (pos 0), lit (pos 4))
    pub offset_room : HasRoom p (rec_offset p)
    pub pre_room : HasRoom p (pre_fc p)
    pub post_room : HasRoom p (post_fc p)
    pub rq_room : HasRoom p (filter_rq p)

  pages-DrawsAll :
      (n : ℕ) (o : Options p)
      → HasRanges o
      → DrawsAll p 8
          (mix_page p n o.rate
            ++ (param_page p n (loop_rows p o.max_time o.rate)
                ++ (param_page p n (rec_rows p)
                    ++ (param_page p n (filter_rows p "pre")
                        ++ (param_page p n (filter_rows p "post")
                            ++ (routing_page p n
                                ++ (sync_page p n
                                    ++ system_page p o.max_time o.read_file o.write_file)))))))
          (drawn_pages p n o)
  unfolding drawn_pages filter_rows
  pages-DrawsAll n o h =
      let unit = h.unit_room in
      let times = h.time_room in
      DrawsAll-cons p (drawn_mix-Draws p n o.rate unit h.pan_room h.rate_room) (
        DrawsAll-cons p
          (drawn_page-Draws p "loop" _ n
            (unit, (times, (times, (times, (h.rate_room, (unit, (unit, tt))))))))
          (DrawsAll-cons p
            (drawn_page-Draws p "rec" _ n
              (unit, (unit, (unit, (unit, (unit, (h.offset_room, (unit, tt))))))))
            (DrawsAll-cons p
              (drawn_page-Draws p "pre" _ n
                (h.pre_room, (unit, (h.rq_room, (unit, (unit, (unit, (unit, (unit, tt)))))))))
              (DrawsAll-cons p
                (drawn_page-Draws p "post" _ n
                  (h.post_room, (h.rq_room, (unit, (unit, (unit, (unit, (unit, tt))))))))
                (DrawsAll-cons p (drawn_routing-Draws p n unit h.pan_room) (
                  DrawsAll-cons p (drawn_sync-Draws p n o.max_time h.pan_room h.quant_room) (
                    DrawsAll-last p
                      (drawn_system-Draws p o.max_time o.read_file o.write_file))))))))

  -- With a voice count that the layout takes, and no empty range, the document is built, each of its rows and
  -- columns has one size for each child, and its controls together transmit what the pages list.
  pub document-build :
      (o : Options p) (controls : List (Control p))
      → HasRanges o
      → build p o.voices o.max_time o.rate o.read_file o.write_file ≡ ok controls
      → (root : Widget p) × (document p o ≡ ok root) × IsLaid p root × (sent p root ≡ controls)
  unfolding document build sent IsLaid
  document-build o controls h built =
      by_count (ltb_ℤ o.voices (pos 1) || ltb_ℤ (pos 6) o.voices) refl
    where
      by_count :
          (b : Bool)
          → ltb_ℤ o.voices (pos 1) || ltb_ℤ (pos 6) o.voices ≡ b
          → (root : Widget p) × (document p o ≡ ok root) × IsLaid p root × (sent p root ≡ controls)
      by_count true bad = absurd (cc (rw (bad, build) at built))
      by_count false good =
          let d = pages-DrawsAll (pos_part o.voices) o h in
          let same = ok-injective _ _ (rw (good, build) at built) in
          (
            stack (some "softcut") (some (o.size.0, o.size.1))
                (widgets (pager "pages" o.tabbar_size d.all) no_widget),
            rw (good, document, d.all_made) refl,
            (d.all_laid, tt),
            append-nil _ ∙ d.all_send ∙ same,
          )
