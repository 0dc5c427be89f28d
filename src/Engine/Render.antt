-- ===== src/Engine/Render.antt =====
-- Blocks of sound: `process_core`, the live callback and `render` of `Engine` in
-- src/softcut/_core.cpp, and the methods of src/softcut/__init__.py over them. Input and output are
-- float32 arrays (`_samples` refuses any other), apart from the arrays that the voices hold.
pub mod Cut
pub mod Rounds
pub mod Blocks
pub mod Calls
pub mod Sized
pub mod Files
use softcut_py.Base.{
  ℕ, zero, suc, ◌+◌, ◌-◌, ◌*◌, String, Bool, true, false, Option, none, some, List, [], ◌∷◌, ◌++◌,
  ◌==◌, string_eq, if◌then◌else◌, length, map, get_elem?, take, drop, replicate, min, ltb,
}
use softcut_py.Base.Int.{ℤ, pos, pos_part, ltb_ℤ}
use softcut_py.Base.Exec.{Result, ok, err, and_then, value_error, runtime_error, type_error}
use softcut_py.Platform.{Platform}
use softcut_py.Voice.{Voice}
use softcut_py.Mixer.{VoiceMix, Mixed, overwrite, process_block}
use softcut_py.Engine.{Engine, drain_commands, on_voice}

module _ (p : Platform) where
  open p use {F, S, Dsp, s_lit, fmul, round_int, process_mono}

  -- The view that the mixer takes of a voice.
  abbrev pub voice_mix : Voice p → VoiceMix p
  voice_mix v = record {
    sc = v.dsp;
    level = v.params "level";
    pan = v.params "pan";
    input_gain = v.params "input_gain";
  }

  abbrev pub put_dsps : List (Voice p) → List Dsp → List (Voice p)
  put_dsps (v ∷ voices) (d ∷ dsps) = record v { dsp = d } ∷ put_dsps voices dsps
  put_dsps [] dsps = []
  put_dsps (v ∷ voices) [] = v ∷ voices

  unfoldable pub mixed : List S → ℕ → Engine p → Mixed p
  unfolding process_block
  mixed ext_in frames e =
      process_block p e.fb (length e.voices) (pos_part e.out_channels) (some ext_in) frames
        e.prev_out (map voice_mix e.voices) e.cur_out e.arrays

  -- The output of a block, and the engine after it: the rows are swapped.
  unfoldable pub process_core : List S → ℕ → Engine p → List S × Engine p
  unfolding mixed
  process_core ext_in frames e =
      let m = mixed ext_in frames e in
      (
        m.out,
        record e {
          voices = put_dsps e.voices m.dsps;
          arrays = m.arrays;
          prev_out = m.cur_out;
          cur_out = e.prev_out;
        },
      )

  -- Output before that of the rounds that follow.
  abbrev pub put_before : List S → Option (List S × Engine p) → Option (List S × Engine p)
  put_before out none = none
  put_before out (some r) = some (out ++ r.0, r.1)

  -- `while (done < n)`, with fuel; `source done chunk` is the input of a round.
  unfoldable pub run_blocks : ℕ → (ℕ → ℕ → List S) → ℕ → ℕ → Engine p → Option (List S × Engine p)
  run_blocks zero source n done e = none
  run_blocks (suc fuel) source n done e =
      let chunk = min (pos_part e.block_size) (n - done) in
      let (out, e1) = process_core (source done chunk) chunk e in
      let rest = put_before out (run_blocks fuel source n (done + chunk) e1) in
      if ltb done n then rest else some ([], e)

  -- `inp + done`
  abbrev pub from_input : List S → ℕ → ℕ → List S
  from_input xs done chunk = take chunk (drop done xs)

  abbrev pub silence : ℕ → List S
  silence n = replicate n (s_lit (pos 0))

  -- The input of a round of the callback: what the device captured, or silence.
  unfoldable pub callback_input : Option (List S) → Engine p → ℕ → ℕ → List S
  callback_input none e done chunk = take chunk (silence (pos_part e.block_size))
  callback_input (some captured) e done chunk =
      if e.mode == "duplex"
      then from_input captured done chunk
      else take chunk (silence (pos_part e.block_size))

  -- `callback_process`, on the audio thread
  unfoldable pub callback_process : Option (List S) → ℕ → Engine p → Option (List S × Engine p)
  callback_process captured frame_count e =
      let e1 = drain_commands p e in
      run_blocks (suc frame_count) (callback_input captured e1) frame_count 0 e1

  -- A method with a loop: `none` stands for a loop that never ends.
  abbrev pub Loop : Type 0 → Type 0
  Loop A = Engine p → Option (Result A × Engine p)

  -- The array that `dest` is once the output stands at its start.
  abbrev pub rendered : List S → Option (List S × Engine p) → Option (Result (List S) × Engine p)
  rendered dest none = none
  rendered dest (some r) = some (ok (overwrite p r.0 dest), r.1)

  unfoldable pub core_render : List S → List S → Loop (List S)
  core_render input dest e =
      if ltb (length dest) (length input * pos_part e.out_channels)
      then some (err value_error, e)
      else rendered dest (run_blocks (suc (length input)) (from_input input) (length input) 0 e)

  -- `_zeros(n)`, as a new array
  abbrev pub zero_samples : ℤ → Result (List S)
  zero_samples n = if ltb_ℤ n (pos 0) then err value_error else ok (silence (pos_part n))

  -- The input of `render`: exactly one of `input` and `seconds` is given.
  unfoldable pub render_input : Option (List S) → Option F → Engine p → Result (List S)
  render_input none none e = err value_error
  render_input (some input) (some seconds) e = err value_error
  render_input (some input) none e = ok input
  render_input none (some seconds) e =
      and_then (round_int (fmul seconds e.sample_rate)) zero_samples

  abbrev pub out_or_zeros : Option (List S) → ℕ → List S
  out_or_zeros none n = silence n
  out_or_zeros (some out) n = out

  abbrev pub render_on : Result (List S) → Option (List S) → Loop (List S)
  render_on (err x) out e = some (err x, e)
  render_on (ok input) out e =
      core_render input (out_or_zeros out (length input * pos_part e.out_channels)) e

  unfoldable pub render : Option (List S) → Option (List S) → Option F → Loop (List S)
  render input out seconds e =
      if e.running
      then some (err runtime_error, e)
      else render_on (render_input input seconds e) out e

  -- `Voice.process` on voice `i`
  unfoldable pub process : ℕ → List S → Option (List S) → Engine p → Result (List S) × Engine p
  process i input out e = elim (get_elem? e.voices i) [
    | none ↦ (err type_error, e)
    | some v ↦
        let dest = out_or_zeros out (length input) in
        let (o, arrays, dsp) = process_mono input e.arrays v.dsp in
        if ltb (length dest) (length input) then (err value_error, e) else (
          ok (overwrite p o dest),
          on_voice p i (λ v. record v { dsp = dsp }) (record e { arrays = arrays }),
        )
  ]
