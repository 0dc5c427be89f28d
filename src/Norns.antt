-- ===== src/Norns.antt =====
-- The norns facade, `NornsSoftcut` of src/softcut/norns.py: one engine and the two global buffers,
-- with voices counted from 1.
pub mod Regions
pub mod Shape
pub mod Tables
pub mod Setters
pub mod Indexing
pub mod Start
pub mod Control
use softcut_py.Base.{
  ℕ, ◌+◌, String, Bool, true, false, ◌||◌, Option, none, some, List, [], ◌∷◌, ◌==◌, string_eq,
  if◌then◌else◌, length, map, range_from,
}
use softcut_py.Base.Int.{ℤ, pos, negsuc, ◌-ℤ◌, ltb_ℤ, leb_ℤ, int_eq, pos_part}
use softcut_py.Base.Dict.{Dict, lookup, insert}
use softcut_py.Base.Exec.{
  Exec, Result, ok, err, pure, raise, lift, gets, or_raise, ◌>>=◌, ◌>>◌, modify, raise_if, for_each,
  and_then, index_error, value_error, attribute_error,
}
use softcut_py.Platform.{Platform, truthy}
use softcut_py.Sizes.{next_power_of_two}
use softcut_py.Wav.{Disk}
use softcut_py.Engine.{Engine, num, flag, voice_at, cut_to, reset, set_voice_buffer}
use softcut_py.Engine
use softcut_py.Engine.Attributes.{setattr}
use softcut_py.Engine.Methods.{new_engine, sync, set_feedback, zeros}

-- norns function name -> voice attribute
abbrev pub float_params : Dict String String
float_params =
    ("rate", "rate")
    ∷ ("level", "level")
    ∷ ("pan", "pan")
    ∷ ("rec_level", "rec_level")
    ∷ ("pre_level", "pre_level")
    ∷ ("loop_start", "loop_start")
    ∷ ("loop_end", "loop_end")
    ∷ ("fade_time", "fade_time")
    ∷ ("rec_offset", "rec_offset")
    ∷ ("rate_slew_time", "rate_slew_time")
    ∷ ("recpre_slew_time", "rec_pre_slew_time")
    ∷ ("phase_quant", "phase_quant")
    ∷ ("phase_offset", "phase_offset")
    ∷ ("pre_filter_fc", "pre_filter_fc")
    ∷ ("pre_filter_fc_mod", "pre_filter_fc_mod")
    ∷ ("pre_filter_rq", "pre_filter_rq")
    ∷ ("pre_filter_lp", "pre_filter_lp")
    ∷ ("pre_filter_hp", "pre_filter_hp")
    ∷ ("pre_filter_bp", "pre_filter_bp")
    ∷ ("pre_filter_br", "pre_filter_br")
    ∷ ("pre_filter_dry", "pre_filter_dry")
    ∷ ("post_filter_fc", "post_filter_fc")
    ∷ ("post_filter_rq", "post_filter_rq")
    ∷ ("post_filter_lp", "post_filter_lp")
    ∷ ("post_filter_hp", "post_filter_hp")
    ∷ ("post_filter_bp", "post_filter_bp")
    ∷ ("post_filter_br", "post_filter_br")
    ∷ ("post_filter_dry", "post_filter_dry")
    ∷ []

abbrev pub bool_params : Dict String String
bool_params = ("play", "play") ∷ ("rec", "rec") ∷ ("loop", "loop") ∷ ("rec_once", "rec_once") ∷ []

-- `_BUFFERS`
abbrev pub buffer_numbers : List ℤ
buffer_numbers = pos 1 ∷ pos 2 ∷ []

-- `range(1, n + 1)`
abbrev pub voice_numbers : ℕ → List ℤ
voice_numbers n = map pos (range_from 1 n)

module _ (p : Platform) where
  open p use {F, S, round_int, fmul}

  pub record Host : Type 0 where
    pub sample_rate : F
    -- `_n`
    pub voices : ℤ
    pub engine : Engine p
    -- `_buf`: buffer number to the place of its array, and `_assign`: voice to buffer number
    pub buf : Dict ℤ ℕ
    pub assign : Dict ℤ ℤ
    -- the files that the host reads and writes
    pub disk : Disk

  -- A method of the engine, called by the host.
  abbrev pub on_engine : {A : Type 0} → Exec (Engine p) A → Exec Host A
  on_engine m h = ((m h.engine).0, record h { engine = (m h.engine).1 })

  -- `_v(i)`
  unfoldable pub voice : ℤ → Exec Host ℕ
  unfolding voice_at
  voice i h =
      let idx = i -ℤ pos 1 in
      if ltb_ℤ idx (pos 0) || leb_ℤ h.voices idx
      then (err index_error, h)
      else on_engine (voice_at p idx) h

  unfoldable pub position : ℤ → F → Exec Host Unit
  unfolding voice cut_to
  position i at = voice i >>= λ v. on_engine (modify (cut_to p v at))

  -- `buffer(i, b)`
  unfoldable pub buffer : ℤ → ℤ → Exec Host Unit
  unfolding voice set_voice_buffer
  buffer i b = do
    a ← gets (λ h. lookup b h.buf)
    a ← or_raise a value_error
    v ← voice i
    on_engine (set_voice_buffer p v a)
    modify (λ h. record h { assign = insert i b h.assign })

  unfoldable pub voice_sync : ℤ → ℤ → F → Exec Host Unit
  unfolding sync
  voice_sync dst src offset = on_engine (sync p (dst -ℤ pos 1) (src -ℤ pos 1) offset)

  unfoldable pub level_cut_cut : ℤ → ℤ → F → Exec Host Unit
  unfolding set_feedback
  level_cut_cut src dst amount = on_engine (set_feedback p (src -ℤ pos 1) (dst -ℤ pos 1) amount)

  -- `for i in range(1, n + 1): self.buffer(i, 1)`
  abbrev pub start_routing : ℕ → Exec Host Unit
  start_routing n = for_each (voice_numbers n) (λ i. buffer i (pos 1))

  -- `for v in self._eng: v.reset()`, then every voice back on buffer 1.
  unfoldable pub reset_all : Exec Host Unit
  unfolding buffer Engine.reset
  reset_all = do
    places ← gets (λ h. range_from 0 (length h.engine.voices))
    on_engine (for_each places (λ v. modify (Engine.reset p v)))
    n ← gets (λ h. h.voices)
    start_routing (pos_part n)

  -- The setters made by `_make_float_setter` and `_make_bool_setter`; a bool setter takes any
  -- value, and `bool(value)` is taken by the caller.
  unfoldable pub float_setter : String → ℤ → F → Exec Host Unit
  unfolding voice setattr
  float_setter attr i value = voice i >>= λ v. on_engine (setattr p v attr (num value))

  unfoldable pub bool_setter : String → ℤ → Bool → Exec Host Unit
  unfolding voice setattr
  bool_setter attr i value = voice i >>= λ v. on_engine (setattr p v attr (flag value))

  -- A method of the class by its name, called with a voice and a float: one that the two tables
  -- generate, or `position`.
  unfoldable pub call_method : String → ℤ → F → Exec Host Unit
  unfolding position float_setter bool_setter
  call_method name i x = elim (lookup name float_params) [
    | some attr ↦ float_setter attr i x
    | none ↦ elim (lookup name bool_params) [
      | some attr ↦ bool_setter attr i (truthy p x)
      | none ↦ if name == "position" then position i x else raise attribute_error
    ]
  ]

  -- `_frames(seconds)`
  unfoldable pub frames : F → Host → Result ℤ
  frames seconds h = round_int (fmul seconds h.sample_rate)

  -- `NornsSoftcut(...)`: the engine with its other arguments at their defaults, the two buffers, and
  -- every voice on buffer 1. The disk is the host's surroundings.
  unfoldable pub new_host : F → ℤ → ℤ → String → String → Disk → Result Host
  unfolding new_engine zeros buffer next_power_of_two
  new_host sample_rate voices buffer_frames mode quirks disk =
      and_then (new_engine p voices sample_rate mode (pos 512) (pos 2) quirks) λ e.
        let n = pos (next_power_of_two buffer_frames) in
        let e1 = (zeros p n e).1 in
        let e2 = (zeros p n e1).1 in
        let h : Host = record {
          sample_rate = sample_rate;
          voices = voices;
          engine = e2;
          buf = (pos 1, length e.arrays) ∷ (pos 2, length e1.arrays) ∷ [];
          assign = [];
          disk = disk;
        } in
        let (r, h') = start_routing (pos_part voices) h in and_then r λ _. ok h'
