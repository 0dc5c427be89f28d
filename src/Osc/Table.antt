-- ===== src/Osc/Table.antt =====
-- The dispatch table of src/softcut/osc.py: addresses and what answers them.
use softcut_py.Base.{String, [], ◌∷◌, ◌++◌, map, string_eq}
use softcut_py.Base.Dict.{Dict}
use Prim.Native.String

-- /set/param/cut/<suffix> -> NornsSoftcut method name
abbrev pub param_map : Dict String String
param_map =
    ("rate", "rate")
    ∷ ("loop_start", "loop_start")
    ∷ ("loop_end", "loop_end")
    ∷ ("loop_flag", "loop")
    ∷ ("fade_time", "fade_time")
    ∷ ("rec_level", "rec_level")
    ∷ ("pre_level", "pre_level")
    ∷ ("rec_flag", "rec")
    ∷ ("rec_once", "rec_once")
    ∷ ("play_flag", "play")
    ∷ ("rec_offset", "rec_offset")
    ∷ ("position", "position")
    ∷ ("recpre_slew_time", "recpre_slew_time")
    ∷ ("rate_slew_time", "rate_slew_time")
    ∷ ("phase_quant", "phase_quant")
    ∷ ("phase_offset", "phase_offset")
    ∷ ("pre_filter_fc", "pre_filter_fc")
    ∷ ("pre_filter_fc_mod", "pre_filter_fc_mod")
    ∷ ("pre_filter_rq", "pre_filter_rq")
    ∷ ("pre_filter_lp", "pre_filter_lp")
    ∷ ("pre_filter_hp", "pre_filter_hp")
    ∷ ("pre_filter_bp", "pre_filter_bp")
    ∷ ("pre_filter_br", "pre_filter_br")
    ∷ ("pre_filter_dry", "pre_filter_dry")
    ∷ ("post_filter_fc", "post_filter_fc")
    ∷ ("post_filter_rq", "post_filter_rq")
    ∷ ("post_filter_lp", "post_filter_lp")
    ∷ ("post_filter_hp", "post_filter_hp")
    ∷ ("post_filter_bp", "post_filter_bp")
    ∷ ("post_filter_br", "post_filter_br")
    ∷ ("post_filter_dry", "post_filter_dry")
    ∷ []

-- What a handler of the table is, its closure named.
pub data Route : Type 0 where
  hello quit poll_start poll_stop unsupported ignore : Route
  -- `_v_f` and `_ii_f` of a host method
  method : String → Route
  enabled cut_cut in_cut sync_voices assign_buffer : Route
  read_mono read_stereo write_mono write_stereo : Route
  clear clear_channel clear_region clear_region_channel reset : Route

abbrev param_route : String × String → String × Route
param_route (suffix, name) = (String.◌++◌ "/set/param/cut/" suffix, method name)

-- `_build_handlers()`, in the order of its assignments
abbrev pub handlers : Dict String Route
handlers =
    (("/hello", hello)
      ∷ ("/goodbye", quit)
      ∷ ("/quit", quit)
      ∷ ("/poll/start/cut/phase", poll_start)
      ∷ ("/poll/stop/cut/phase", poll_stop)
      ∷ ("/poll/start/vu", unsupported)
      ∷ ("/poll/stop/vu", ignore)
      ∷ ("/set/level/cut", method "level")
      ∷ ("/set/pan/cut", method "pan")
      ∷ ("/set/enabled/cut", enabled)
      ∷ ("/set/level/cut_cut", cut_cut)
      ∷ ("/set/level/in_cut", in_cut)
      ∷ [])
    ++ (map param_route param_map
        ++ (("/set/param/cut/voice_sync", sync_voices)
            ∷ ("/set/param/cut/buffer", assign_buffer)
            ∷ ("/set/param/cut/level_slew_time", unsupported)
            ∷ ("/set/param/cut/pan_slew_time", unsupported)
            ∷ ("/softcut/buffer/read_mono", read_mono)
            ∷ ("/softcut/buffer/read_stereo", read_stereo)
            ∷ ("/softcut/buffer/write_mono", write_mono)
            ∷ ("/softcut/buffer/write_stereo", write_stereo)
            ∷ ("/softcut/buffer/clear", clear)
            ∷ ("/softcut/buffer/clear_channel", clear_channel)
            ∷ ("/softcut/buffer/clear_region", clear_region)
            ∷ ("/softcut/buffer/clear_region_channel", clear_region_channel)
            ∷ ("/softcut/reset", reset)
            ∷ []))
