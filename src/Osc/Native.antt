-- ===== src/Osc/Native.antt =====
-- The receiver of the native backend: `OscReceiver` of src/softcut/_core.cpp. A message for a float or
-- a flag of a voice is dispatched in C; any other is handed to `_dispatch` of src/softcut/osc.py.
-- What comes in is a message as tinyosc reads it.
pub mod Floats
pub mod Flags
pub mod Agrees
use softcut_py.Base.{
  ℕ, String, Bool, true, false, not, ◌||◌, Option, none, some, List, [], ◌∷◌, ◌==◌, string_eq,
  if◌then◌else◌, length,
}
use softcut_py.Base.Int.{ℤ, pos, pos_part, ltb_ℤ, leb_ℤ}
use softcut_py.Base.Dict.{Dict, lookup}
use softcut_py.Platform.{Platform}
use softcut_py.Engine.{Engine}
use softcut_py.Engine.OscQueue.{osc_store_param, osc_store_flag, osc_set_rec, osc_set_rec_once}
use softcut_py.Osc

-- The address of a parameter, and the property whose mirror and setter its entry names.
abbrev pub native_floats : Dict String String
native_floats =
    ("/set/param/cut/rate", "rate")
    ∷ ("/set/param/cut/loop_start", "loop_start")
    ∷ ("/set/param/cut/loop_end", "loop_end")
    ∷ ("/set/param/cut/fade_time", "fade_time")
    ∷ ("/set/param/cut/rec_level", "rec_level")
    ∷ ("/set/param/cut/pre_level", "pre_level")
    ∷ ("/set/param/cut/rec_offset", "rec_offset")
    ∷ ("/set/param/cut/recpre_slew_time", "rec_pre_slew_time")
    ∷ ("/set/param/cut/rate_slew_time", "rate_slew_time")
    ∷ ("/set/param/cut/phase_quant", "phase_quant")
    ∷ ("/set/param/cut/phase_offset", "phase_offset")
    ∷ ("/set/param/cut/pre_filter_fc", "pre_filter_fc")
    ∷ ("/set/param/cut/pre_filter_fc_mod", "pre_filter_fc_mod")
    ∷ ("/set/param/cut/pre_filter_rq", "pre_filter_rq")
    ∷ ("/set/param/cut/pre_filter_lp", "pre_filter_lp")
    ∷ ("/set/param/cut/pre_filter_hp", "pre_filter_hp")
    ∷ ("/set/param/cut/pre_filter_bp", "pre_filter_bp")
    ∷ ("/set/param/cut/pre_filter_br", "pre_filter_br")
    ∷ ("/set/param/cut/pre_filter_dry", "pre_filter_dry")
    ∷ ("/set/param/cut/post_filter_fc", "post_filter_fc")
    ∷ ("/set/param/cut/post_filter_rq", "post_filter_rq")
    ∷ ("/set/param/cut/post_filter_lp", "post_filter_lp")
    ∷ ("/set/param/cut/post_filter_hp", "post_filter_hp")
    ∷ ("/set/param/cut/post_filter_bp", "post_filter_bp")
    ∷ ("/set/param/cut/post_filter_br", "post_filter_br")
    ∷ ("/set/param/cut/post_filter_dry", "post_filter_dry")
    ∷ []

abbrev pub native_flags : Dict String String
native_flags =
    ("/set/param/cut/loop_flag", "loop")
    ∷ ("/set/param/cut/rec_flag", "rec")
    ∷ ("/set/param/cut/rec_once", "rec_once")
    ∷ ("/set/param/cut/play_flag", "play")
    ∷ []

module _ (p : Platform) where
  open p use {F, S, s_lit, s_eq, widen}

  -- An argument with its type tag: `i f s h d T F`, or a tag that the receiver does not know.
  pub data Tagged : Type 0 where
    tag_i : ℤ → Tagged
    tag_f : S → Tagged
    tag_s : String → Tagged
    tag_h : ℤ → Tagged
    tag_d : F → Tagged
    tag_t tag_false unknown : Tagged

  -- A flag goes to the setter of `rec` or `rec_once`, or to its own.
  unfoldable pub fast_flag : ℕ → String → Bool → Engine p → Engine p
  unfolding osc_store_flag osc_set_rec osc_set_rec_once
  fast_flag i attr x e =
      if attr == "rec"
      then osc_set_rec p i x e
      else if attr == "rec_once"
      then osc_set_rec_once p i x e
      else osc_store_flag p i attr x e

  -- Dispatch by the address, once the message has the two arguments; a bad voice number is dropped.
  unfoldable pub fast_entry : String → ℤ → S → Engine p → Option (Engine p)
  unfolding osc_store_param fast_flag
  fast_entry address v raw e =
      let bad = ltb_ℤ v (pos 0) || leb_ℤ (pos (length e.voices)) v in
      elim (lookup address native_floats) [
        | some attr ↦ some (if bad then e else osc_store_param p (pos_part v) attr raw e)
        | none ↦ elim (lookup address native_flags) [
          | some attr ↦
              some
                (if bad then e else fast_flag (pos_part v) attr (not (s_eq raw (s_lit (pos 0)))) e)
          | none ↦ none
        ]
      ]

  -- `try_fast_dispatch`: `none` where it returns false.
  unfoldable pub try_fast_dispatch : String → List Tagged → Engine p → Option (Engine p)
  unfolding fast_entry
  try_fast_dispatch address (tag_i v ∷ tag_f raw ∷ []) e = fast_entry address v raw e
  try_fast_dispatch address (tag_i v ∷ tag_i n ∷ []) e = fast_entry address v (s_lit n) e
  try_fast_dispatch address _ e = none

  -- The list that `deliver` makes of the arguments, up to the first unknown tag.
  unfoldable pub delivered : List Tagged → List (Osc.Arg p)
  delivered [] = []
  delivered (tag_i i ∷ args) = Osc.int i ∷ delivered args
  delivered (tag_f x ∷ args) = Osc.float (widen x) ∷ delivered args
  delivered (tag_s s ∷ args) = Osc.str s ∷ delivered args
  delivered (tag_h i ∷ args) = Osc.int i ∷ delivered args
  delivered (tag_d x ∷ args) = Osc.float x ∷ delivered args
  delivered (tag_t ∷ args) = Osc.boolean true ∷ delivered args
  delivered (tag_false ∷ args) = Osc.boolean false ∷ delivered args
  delivered (unknown ∷ args) = []

  -- The server after the fast path, or else after `_dispatch`.
  abbrev pub received : Option (Engine p) → String → List Tagged → Osc.Server p → Osc.Server p
  received none address args s = Osc.dispatch p address (delivered args) s
  received (some e) address args s = record s { host = record s.host { engine = e } }

  -- `handle(m)`, with the engine that the server hands over.
  unfoldable pub receive : String → List Tagged → Osc.Server p → Osc.Server p
  unfolding try_fast_dispatch
  receive address args s = received (try_fast_dispatch address args s.host.engine) address args s

  -- A datagram: one message, or those of a bundle one after another.
  unfoldable pub receive_all : List (String × List Tagged) → Osc.Server p → Osc.Server p
  unfolding receive
  receive_all [] s = s
  receive_all ((address, args) ∷ messages) s = receive_all messages (receive address args s)
