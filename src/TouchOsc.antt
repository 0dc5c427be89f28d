-- ===== src/TouchOsc.antt =====
-- The tables of the TouchOSC layout generator, clients/touchosc/build_layout.py: the rows of its
-- parameter pages, where a fader opens, and what a control sends. The drawing of controls by the package
-- py2tosc, colours and captions included, is left out.
pub mod Routes
pub mod Pages
pub mod Widgets
pub mod Surface
use softcut_py.Base.{
  ℕ, String, Bool, true, false, Option, none, some, List, [], ◌∷◌, ◌++◌, map, ◌==◌, string_eq,
  nat_eq, if◌then◌else◌, range_from,
}
use softcut_py.Base.Int.{ℤ, pos, negsuc}
use softcut_py.Base.Dict.{Dict, lookup}
use softcut_py.Base.Exec.{Result, ok, err, zero_division_error}
use Prim.Native.Char
use Prim.Native.String
use softcut_py.Platform.{Platform}
use softcut_py.Osc

-- `label.replace(" ", "_")`
unfoldable pub underscored : String → String
underscored String.[] = String.[]
underscored (String.◌∷◌ c s) =
    let rest = underscored s in
    if Char.code c == 32 then String.◌++◌ "_" rest else String.◌∷◌ c rest

module _ (p : Platform) where
  open p use {F, lit, fadd, fsub, fmul, fdiv, flt, feq}

  -- A decimal literal.
  abbrev pub ratio : ℤ → ℕ → F
  ratio n d = fdiv (lit n) (lit (pos d))

  -- VOICE_DEFAULTS
  abbrev pub voice_defaults : Dict String F
  voice_defaults =
      ("/set/level/cut", lit (pos 1))
      ∷ ("/set/pan/cut", lit (pos 0))
      ∷ ("/set/level/in_cut", lit (pos 1))
      ∷ ("/set/param/cut/rate", lit (pos 1))
      ∷ ("/set/param/cut/loop_start", lit (pos 0))
      ∷ ("/set/param/cut/loop_end", lit (pos 0))
      ∷ ("/set/param/cut/position", lit (pos 0))
      ∷ ("/set/param/cut/fade_time", ratio (pos 1) 10)
      ∷ ("/set/param/cut/rate_slew_time", ratio (pos 1) 1000)
      ∷ ("/set/param/cut/recpre_slew_time", ratio (pos 1) 1000)
      ∷ ("/set/param/cut/rec_level", lit (pos 0))
      ∷ ("/set/param/cut/pre_level", lit (pos 0))
      ∷ ("/set/param/cut/rec_offset", ratio (negsuc 0) 6000)
      ∷ ("/set/param/cut/phase_quant", lit (pos 0))
      ∷ ("/set/param/cut/phase_offset", lit (pos 0))
      ∷ ("/set/param/cut/pre_filter_fc", lit (pos 16000))
      ∷ ("/set/param/cut/pre_filter_fc_mod", lit (pos 1))
      ∷ ("/set/param/cut/pre_filter_rq", lit (pos 4))
      ∷ ("/set/param/cut/pre_filter_lp", lit (pos 1))
      ∷ ("/set/param/cut/pre_filter_hp", lit (pos 0))
      ∷ ("/set/param/cut/pre_filter_bp", lit (pos 0))
      ∷ ("/set/param/cut/pre_filter_br", lit (pos 0))
      ∷ ("/set/param/cut/pre_filter_dry", lit (pos 0))
      ∷ ("/set/param/cut/post_filter_fc", lit (pos 12000))
      ∷ ("/set/param/cut/post_filter_rq", lit (pos 4))
      ∷ ("/set/param/cut/post_filter_lp", lit (pos 0))
      ∷ ("/set/param/cut/post_filter_hp", lit (pos 0))
      ∷ ("/set/param/cut/post_filter_bp", lit (pos 0))
      ∷ ("/set/param/cut/post_filter_br", lit (pos 0))
      ∷ ("/set/param/cut/post_filter_dry", lit (pos 1))
      ∷ []

  -- PRE_FC, POST_FC, FILTER_RQ, REC_OFFSET and SLEW
  abbrev pub pre_fc : F × F
  pre_fc = (lit (pos 10), lit (pos 16000))

  abbrev pub post_fc : F × F
  post_fc = (lit (pos 10), lit (pos 12000))

  abbrev pub filter_rq : F × F
  filter_rq = (ratio (pos 1) 10, lit (pos 4))

  abbrev pub rec_offset : F × F
  rec_offset = (ratio (negsuc 0) 100, ratio (pos 1) 100)

  abbrev pub slew : F × F
  slew = (lit (pos 0), lit (pos 1))

  -- `min(a, b)` and `max(a, b)` of floats
  abbrev pub min_float : F → F → F
  min_float a b = if flt b a then b else a

  abbrev pub max_float : F → F → F
  max_float a b = if flt a b then b else a

  -- `min(1.0, max(0.0, (default - lo) / (hi - lo)))`
  unfoldable pub travel : F × F → F → Result F
  travel (lo, hi) default =
      if feq (fsub hi lo) (lit (pos 0))
      then err zero_division_error
      else ok
          (min_float (lit (pos 1)) (max_float (lit (pos 0)) (fdiv (fsub default lo) (fsub hi lo))))

  unfoldable pub position_of : String → F × F → Result F
  unfolding travel
  position_of address span = elim (lookup address voice_defaults) [
    | none ↦ ok (lit (pos 0))
    | some default ↦ travel span default
  ]

  -- A row of a parameter page.
  pub record Param : Type 0 where
    pub label : String
    pub address : String
    pub span : F × F
    pub toggle : Bool
    pub key : String
    pub note : String

  abbrev pub fader : String → String → F × F → Param
  fader label address span = record {
    label = label;
    address = address;
    span = span;
    toggle = false;
    key = "";
    note = "";
  }

  abbrev pub switch : String → String → Param
  switch label address = record {
    label = label;
    address = address;
    span = (lit (pos 0), lit (pos 1));
    toggle = true;
    key = "";
    note = "";
  }

  -- The rows of `loop_page(voices, max_time, rate)`
  abbrev pub loop_rows : F → F → List Param
  loop_rows max_time rate =
      switch "loop" "/set/param/cut/loop_flag"
      ∷ fader "loop start" "/set/param/cut/loop_start" (lit (pos 0), max_time)
      ∷ fader "loop end" "/set/param/cut/loop_end" (lit (pos 0), max_time)
      ∷ fader "position" "/set/param/cut/position" (lit (pos 0), max_time)
      ∷ fader "rate" "/set/param/cut/rate" (fmul (lit (negsuc 0)) rate, rate)
      ∷ fader "rate slew" "/set/param/cut/rate_slew_time" slew
      ∷ fader "fade time" "/set/param/cut/fade_time" slew
      ∷ []

  -- The rows of `rec_page(voices)`
  abbrev pub rec_rows : List Param
  rec_rows =
      switch "rec" "/set/param/cut/rec_flag"
      ∷ switch "play" "/set/param/cut/play_flag"
      ∷ switch "rec once" "/set/param/cut/rec_once"
      ∷ fader "rec level" "/set/param/cut/rec_level" slew
      ∷ fader "pre level" "/set/param/cut/pre_level" slew
      ∷ fader "rec offset" "/set/param/cut/rec_offset" rec_offset
      ∷ fader "recpre slew" "/set/param/cut/recpre_slew_time" slew
      ∷ []

  -- `band(label, span)` of `filter_page(voices, which)`
  unfoldable pub band : String → String → F × F → Param
  unfolding underscored
  band which label span = record {
    label = label;
    address =
        String.◌++◌ (String.◌++◌ (String.◌++◌ "/set/param/cut/" which) "_filter_")
          (underscored label);
    span = span;
    toggle = false;
    key = String.◌++◌ (String.◌++◌ which "_") label;
    note = "";
  }

  unfoldable pub filter_rows : String → List Param
  unfolding band
  filter_rows which =
      (band which "fc" (if which == "pre" then pre_fc else post_fc) ∷ [])
      ++ ((if which == "pre" then band which "fc mod" slew ∷ [] else [])
          ++ (record (band which "rq" filter_rq) { note = "low = resonant" }
              ∷ band which "lp" slew
              ∷ band which "hp" slew
              ∷ band which "bp" slew
              ∷ band which "br" slew
              ∷ band which "dry" slew
              ∷ []))

  -- The fader's value, from 0 to 1, on the range of its argument.
  abbrev pub scaled : F × F → F → F
  scaled (lo, hi) x = fadd lo (fmul x (fsub hi lo))

  -- `Param.control(voice)`: what it sends when it is moved to `x`.
  unfoldable pub message : Param → ℕ → F → String × List (Osc.Arg p)
  message row voice x = (row.address, Osc.int (pos voice) ∷ Osc.float (scaled row.span x) ∷ [])

  -- The rows of all parameter pages.
  unfoldable pub all_rows : F → F → List Param
  unfolding filter_rows
  all_rows max_time rate =
      loop_rows max_time rate ++ (rec_rows ++ (filter_rows "pre" ++ filter_rows "post"))
