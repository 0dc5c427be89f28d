-- ===== src/Tests.antt =====
-- Concrete runs: the theorems applied to a platform whose floats are integers and whose DSP voice
-- keeps the list of its commands.
mod Components
mod Sessions
mod Rings
mod Rendering
mod Native
mod Datagrams
mod Surfaces
mod Demos
use softcut_py.Base.{
  ℕ, zero, suc, ◌+◌, ◌*◌, ◌/◌, ◌≡◌, ◌≢◌, refl, String, Bool, true, false, Option, none, some, List,
  [], ◌∷◌, replicate, length, map, inl, inr, string_eq, ◌==◌, arith,
}
use softcut_py.Base.Int.{ℤ, pos, negsuc, eqb_ℤ, ltb_ℤ, ◌+ℤ◌, ◌-ℤ◌, ◌*ℤ◌, ◌≤ℤ◌}
use softcut_py.Base.Exec.{Result, ok, err, os_error, value_error, runtime_error, index_error}
use softcut_py.Platform.{Platform, Command, set_param}
use softcut_py.Voice.{Voice, reset_value, param_defaults}
use softcut_py.Engine.{Engine, set_voice_buffer, stop, reset}
use softcut_py.Wav.{Disk, View}
use softcut_py.Norns.{Host}
use softcut_py.Osc

-- Division is only used to scale samples; here it keeps its numerator.
abbrev pub test_platform : Platform
test_platform = record {
  F = ℤ;
  lit = λ i. i;
  fadd = λ a b. a +ℤ b;
  fsub = λ a b. a -ℤ b;
  fmul = λ a b. a *ℤ b;
  fdiv = λ a b. a;
  flt = ltb_ℤ;
  feq = eqb_ℤ;
  pi = pos 3;
  sin = λ x. x;
  round_int = λ x. ok x;
  trunc = λ x. ok x;
  of_int = λ i. ok i;
  parse_int = λ s. err value_error;
  parse_float = λ s. err value_error;
  show_int = λ i. "";
  show_float = λ x. "";
  general = λ x. x;
  show_general = λ x. "";
  utf8 = λ s. b'/' ∷ b'a' ∷ [];
  pack_float = λ x. ok (0 ∷ 0 ∷ 0 ∷ 0 ∷ []);
  S = ℤ;
  s_lit = λ i. i;
  s_add = λ a b. a +ℤ b;
  s_sub = λ a b. a -ℤ b;
  s_mul = λ a b. a *ℤ b;
  s_div = λ a b. a;
  s_lt = ltb_ℤ;
  s_eq = eqb_ℤ;
  s_cos = λ x. pos 1;
  s_sin = λ x. pos 1;
  lround = λ x. x;
  narrow = λ x. x;
  widen = λ x. x;
  Dsp = List (Command ℤ);
  fresh = λ fixed. [];
  command = λ c d. c ∷ d;
  active_position = λ d. pos (length d);
  quant_phase = λ d. pos (length d);
  saved_rec = λ d. false;
  saved_rec_once = λ d. false;
  saved_head_position = λ i d. pos 0;
  saved_head_fade = λ i d. pos 0;
  saved_active_head = λ d. pos 0;
  process_mono = λ xs arrays d. (xs, arrays, d);
}

abbrev pub test_voice : Voice test_platform
test_voice = record {
  params = λ k. pos 0;
  flags = λ k. false;
  dsp = [];
  buffer = some 0;
  frames = 4;
  sample_rate = pos 48000;
  fixed = false;
  pending = 0;
  dropped = 0;
}

-- Two voices and two arrays of four frames.
abbrev pub test_engine : Engine test_platform
test_engine = record {
  voices = test_voice ∷ test_voice ∷ [];
  queue = [];
  osc_queue = [];
  running = false;
  fb = pos 0 ∷ pos 0 ∷ pos 0 ∷ pos 0 ∷ [];
  prev_out = replicate 2 (replicate 4 (pos 0));
  cur_out = replicate 2 (replicate 4 (pos 0));
  arrays = (pos 1 ∷ pos 2 ∷ pos 3 ∷ pos 4 ∷ []) ∷ (pos 5 ∷ pos 6 ∷ pos 7 ∷ pos 8 ∷ []) ∷ [];
  sample_rate = pos 1;
  mode = "duplex";
  block_size = pos 4;
  out_channels = pos 2;
}

abbrev pub running_engine : Engine test_platform
running_engine = record test_engine { running = true }

abbrev pub test_disk : Disk
test_disk = record { content = λ path. err os_error; refused = λ path. none }

abbrev pub test_host : Host test_platform
test_host = record {
  sample_rate = pos 1;
  voices = pos 2;
  engine = test_engine;
  buf = (pos 1, 0) ∷ (pos 2, 1) ∷ [];
  assign = (pos 1, pos 1) ∷ (pos 2, pos 1) ∷ [];
  disk = test_disk;
}

abbrev pub test_server : Osc.Server test_platform
test_server = record {
  host = test_host;
  backend = "python-osc";
  quit_requested = false;
  phase = record { last = none ∷ none ∷ []; running = false; errors = 0; sent = [] };
  serving = true;
  bound = true;
}
