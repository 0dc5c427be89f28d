-- ===== src/Platform.antt =====
-- What the program runs on and does not implement: Python's floats and text conversions, C floats,
-- and the vendored DSP voice of thirdparty/softcut-lib. Nothing is assumed of them here.
use softcut_py.Base.{ℕ, Bool, String, List, not, ◌&&◌, if◌then◌else◌}
use softcut_py.Base.Int.{ℤ, pos, negsuc, ltb_ℤ, leb_ℤ}
use softcut_py.Base.Exec.{type_error, Result, ok, err}

-- What src/softcut/_core.cpp asks of a `softcut::Voice`: the bodies of the closures that it runs
-- at once or hands to the audio thread. A parameter is named as the Python attribute is, and a
-- buffer is the place of its array.
pub data Command (S : Type 0) : Type 0 where
  set_param : String → S → Command S
  set_flag : String → Bool → Command S
  set_rec_flag set_rec_once_flag : Bool → Command S
  set_sample_rate : S → Command S
  cut_to_pos : S → Command S
  stop_heads reset_voice : Command S
  set_buffer : ℕ → Command S
  set_fade_shape : String → String → Command S

pub record Platform : Type 1 where
  -- Python's `float`
  pub F : Type 0
  -- a literal with a whole value
  pub lit : ℤ → F
  pub fadd : F → F → F
  pub fsub : F → F → F
  pub fmul : F → F → F
  pub fdiv : F → F → F
  pub flt : F → F → Bool
  pub feq : F → F → Bool
  -- `math.pi` and `math.sin`
  pub pi : F
  pub sin : F → F
  -- `int(round(x))`, `int(x)` and `float(i)`, with their errors on nan, inf and huge values
  pub round_int : F → Result ℤ
  pub trunc : F → Result ℤ
  pub of_int : ℤ → Result F
  -- `int(text)` and `float(text)`
  pub parse_int : String → Result ℤ
  pub parse_float : String → Result F
  -- `float(f"{x:g}")`: six digits of the value
  pub general : F → F
  -- `str(i)`, `str(x)` and `f"{x:g}"`
  pub show_int : ℤ → String
  pub show_float : F → String
  pub show_general : F → String
  -- `text.encode()`, and `struct.pack(">f", x)`, which raises on what is too large
  pub utf8 : String → List ℕ
  pub pack_float : F → Result (List ℕ)
  -- C's `float`
  pub S : Type 0
  pub s_lit : ℤ → S
  pub s_add : S → S → S
  pub s_sub : S → S → S
  pub s_mul : S → S → S
  pub s_div : S → S → S
  pub s_lt : S → S → Bool
  pub s_eq : S → S → Bool
  pub s_cos : S → S
  pub s_sin : S → S
  pub lround : S → ℤ
  -- a Python float handed to the extension, and back
  pub narrow : F → S
  pub widen : S → F
  -- softcut::Voice
  pub Dsp : Type 0
  pub fresh : Bool → Dsp
  pub command : Command S → Dsp → Dsp
  pub active_position : Dsp → S
  pub quant_phase : Dsp → S
  pub saved_rec : Dsp → Bool
  pub saved_rec_once : Dsp → Bool
  -- the position and the fade of head 0 and of head 1, and which one is active
  pub saved_head_position : ℕ → Dsp → S
  pub saved_head_fade : ℕ → Dsp → S
  pub saved_active_head : Dsp → ℤ
  -- `processBlockMono`: an input block and all arrays, to the output block and the arrays after
  pub process_mono : List S → List (List S) → Dsp → List S × List (List S) × Dsp

-- `bool(x)` of a float: everything but zero, nan too.
abbrev pub truthy : (p : Platform) → p.F → Bool
truthy p x = not (p.feq x (p.lit (pos 0)))

-- The extension takes a 64-bit or a 32-bit integer, and refuses others with TypeError.
unfoldable pub as_int64 : ℤ → Result ℤ
as_int64 i =
    if leb_ℤ (negsuc 9223372036854775807) i && ltb_ℤ i (pos 9223372036854775808)
    then ok i
    else err type_error

unfoldable pub as_int32 : ℤ → Result ℤ
as_int32 i =
    if leb_ℤ (negsuc 2147483647) i && ltb_ℤ i (pos 2147483648) then ok i else err type_error
