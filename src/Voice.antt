-- ===== src/Voice.antt =====
-- One `Voice` of src/softcut/_core.cpp: the mirrors of its parameters, the array that it holds and
-- the state of the vendored DSP voice that it wraps.
use softcut_py.Base.{
  ℕ, ◌-◌, ltb, String, Bool, true, false, ◌||◌, Option, none, some, List, [], ◌∷◌, ◌==◌, string_eq,
  if◌then◌else◌,
}
use softcut_py.Base.Int.{pos, negsuc}
use softcut_py.Base.Dict.{Dict, lookup}
use softcut_py.Platform.{
  Platform, Command, set_rec_flag, set_rec_once_flag, set_sample_rate, reset_voice,
}

-- `name in names`
unfoldable pub contains : List String → String → Bool
contains [] k = false
contains (n ∷ names) k = k == n || contains names k

-- The float properties that reach the DSP (FPROP), in the order of the binding.
abbrev pub param_props : List String
param_props =
    "rate" ∷ "loop_start" ∷ "loop_end" ∷ "fade_time" ∷ "rec_level" ∷ "pre_level" ∷ "rec_offset"
    ∷ "rec_pre_slew_time" ∷ "rate_slew_time" ∷ "phase_quant" ∷ "phase_offset" ∷ "rec_delay_ratio"
    ∷ "pre_window_ratio" ∷ "pre_filter_fc" ∷ "pre_filter_rq" ∷ "pre_filter_lp" ∷ "pre_filter_hp"
    ∷ "pre_filter_bp" ∷ "pre_filter_br" ∷ "pre_filter_dry" ∷ "pre_filter_fc_mod" ∷ "post_filter_fc"
    ∷ "post_filter_rq" ∷ "post_filter_lp" ∷ "post_filter_hp" ∷ "post_filter_bp" ∷ "post_filter_br"
    ∷ "post_filter_dry" ∷ []

-- The float properties of the mixer, which the DSP voice never sees.
abbrev pub mix_props : List String
mix_props = "level" ∷ "pan" ∷ "input_gain" ∷ []

-- The flags (BPROP), less `rec` and `rec_once`, which have setters of their own.
abbrev pub flag_props : List String
flag_props = "loop" ∷ "play" ∷ []

-- Names that can be read and not assigned, or that are no property at all, are in none of the three.

module _ (p : Platform) where
  open p use {F, S, Dsp, s_lit, s_div}

  pub record Voice : Type 0 where
    -- the mirrors, by attribute
    pub params : String → S
    pub flags : String → Bool
    -- softcut::Voice
    pub dsp : Dsp
    -- the place of the array in `buffer_ref`, and `buffer_frames_`
    pub buffer : Option ℕ
    pub frames : ℕ
    pub sample_rate : S
    pub fixed : Bool
    -- `flag_changes_pending_` and `dropped_commands_`
    pub pending : ℕ
    pub dropped : ℕ

  -- What `reset_params` stores, and what a new voice's mirrors hold.
  abbrev pub param_defaults : Bool → Dict String S
  param_defaults fixed =
      ("rate", s_lit (pos 1))
      ∷ ("loop_start", s_lit (pos 0))
      ∷ ("loop_end", s_lit (pos 0))
      ∷ ("fade_time", s_div (s_lit (pos 1)) (s_lit (pos (if fixed then 100 else 10))))
      ∷ ("rec_level", s_lit (pos 0))
      ∷ ("pre_level", s_lit (pos 0))
      ∷ ("rec_offset", s_div (s_lit (negsuc 7)) (s_lit (pos 48000)))
      ∷ ("rec_pre_slew_time", s_div (s_lit (pos 1)) (s_lit (pos 1000)))
      ∷ ("rate_slew_time", s_div (s_lit (pos 1)) (s_lit (pos 1000)))
      ∷ ("phase_quant", s_lit (pos 0))
      ∷ ("phase_offset", s_lit (pos 0))
      ∷ ("rec_delay_ratio", s_div (s_lit (pos 1)) (s_lit (pos 128)))
      ∷ ("pre_window_ratio", s_div (s_lit (pos 1)) (s_lit (pos 8)))
      ∷ ("pre_filter_fc", s_lit (pos 16000))
      ∷ ("pre_filter_rq", s_lit (pos 4))
      ∷ ("pre_filter_lp", s_lit (pos 1))
      ∷ ("pre_filter_hp", s_lit (pos 0))
      ∷ ("pre_filter_bp", s_lit (pos 0))
      ∷ ("pre_filter_br", s_lit (pos 0))
      ∷ ("pre_filter_dry", s_lit (pos 0))
      ∷ ("pre_filter_fc_mod", s_lit (pos 1))
      ∷ ("post_filter_fc", s_lit (pos 12000))
      ∷ ("post_filter_rq", s_lit (pos 4))
      ∷ ("post_filter_lp", s_lit (pos 0))
      ∷ ("post_filter_hp", s_lit (pos 0))
      ∷ ("post_filter_bp", s_lit (pos 0))
      ∷ ("post_filter_br", s_lit (pos 0))
      ∷ ("post_filter_dry", s_lit (pos 1))
      ∷ []

  -- The default of a parameter, or else what stands there.
  abbrev pub reset_value : Option S → S → S
  reset_value none old = old
  reset_value (some x) old = x

  -- `reset_params()`: level, pan and input gain are not among what it restores.
  unfoldable pub reset_params : Voice → Voice
  reset_params v = record v {
    params = λ k. reset_value (lookup k (param_defaults v.fixed)) (v.params k);
    flags = λ k. false;
  }

  -- `Voice(sample_rate, quirks)`, for quirks that are known
  unfoldable pub new_voice : S → Bool → Voice
  new_voice sr fixed = record {
    params = λ k.
        reset_value (lookup k (param_defaults fixed))
          (if k == "pan" then s_lit (pos 0) else s_lit (pos 1));
    flags = λ k. false;
    dsp = p.command (set_sample_rate sr) (p.fresh fixed);
    buffer = none;
    frames = 0;
    sample_rate = sr;
    fixed = fixed;
    pending = 0;
    dropped = 0;
  }

  -- The flag commands report back by `flag_applied()`.
  abbrev pub is_flag_change : Command S → Bool
  is_flag_change (set_rec_flag x) = true
  is_flag_change (set_rec_once_flag x) = true
  is_flag_change reset_voice = true
  is_flag_change _ = false

  -- Running the closure of a command on the DSP voice.
  unfoldable pub perform : Command S → Voice → Voice
  perform c v = record v {
    dsp = p.command c v.dsp;
    pending = if is_flag_change c then v.pending - 1 else v.pending;
  }

  abbrev pub with_param : String → S → Voice → Voice
  with_param k x v = record v { params = λ j. if j == k then x else v.params j }

  abbrev pub with_flag : String → Bool → Voice → Voice
  with_flag k x v = record v { flags = λ j. if j == k then x else v.flags j }

  -- The getters of `rec` and `rec_once`.
  unfoldable pub rec : Voice → Bool
  rec v = if ltb 0 v.pending then v.flags "rec" else p.saved_rec v.dsp

  unfoldable pub rec_once : Voice → Bool
  rec_once v = if ltb 0 v.pending then v.flags "rec_once" else p.saved_rec_once v.dsp
