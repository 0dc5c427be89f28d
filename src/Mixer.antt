-- ===== src/Mixer.antt =====
-- The mixer of one block: src/shared/mixer.hpp.
pub mod Frames
pub mod At
use softcut_py.Base.{
  ℕ, zero, suc, ◌+◌, ◌*◌, Bool, Option, none, some, List, [], ◌∷◌, ◌++◌, map, length, get_or, set,
  take, drop, replicate, ltb, if◌then◌else◌,
}
use softcut_py.Base.Int.{pos}
use softcut_py.Platform.{Platform}
use softcut_py.Engine.{update_at}

module _ (p : Platform) where
  open p use {S, Dsp, s_lit, s_add, s_mul, s_div, s_eq, s_cos, s_sin, process_mono}

  -- `VoiceMix`
  pub record VoiceMix : Type 0 where
    pub sc : Dsp
    pub level : S
    pub pan : S
    pub input_gain : S

  -- `voice_in[i] = ext_in ? ext_in[i] * ig : 0`
  unfoldable pub gained : Option (List S) → S → ℕ → List S
  gained none ig frames = replicate frames (s_lit (pos 0))
  gained (some ext_in) ig frames = map (λ x. s_mul x ig) (take frames ext_in)

  -- `voice_in[i] += po[i] * g`
  unfoldable pub add_scaled : S → List S → List S → List S
  add_scaled g (x ∷ po) (y ∷ voice_in) = s_add y (s_mul x g) ∷ add_scaled g po voice_in
  add_scaled g [] voice_in = voice_in
  add_scaled g (x ∷ po) [] = []

  -- The loop over `src`, at the rows of `prev_out` that are left.
  unfoldable pub feedback_into : List S → ℕ → ℕ → ℕ → List (List S) → List S → List S
  unfolding add_scaled
  feedback_into fb n_voices dst src [] voice_in = voice_in
  feedback_into fb n_voices dst src (po ∷ rows) voice_in =
      let g = get_or fb (src * n_voices + dst) (s_lit (pos 0)) in
      feedback_into fb n_voices dst (suc src) rows
        (if s_eq g (s_lit (pos 0)) then voice_in else add_scaled g po voice_in)

  -- 1.5707963267948966f
  half_pi : S
  half_pi = s_div (s_lit (pos 13176795)) (s_lit (pos 8388608))

  half : S
  half = s_div (s_lit (pos 1)) (s_lit (pos 2))

  unfoldable pub pan_angle : VoiceMix → S
  unfolding half half_pi
  pan_angle v = s_mul (s_add (s_mul v.pan half) half) half_pi

  -- `gl` and `gr`
  unfoldable pub left_gain : VoiceMix → S
  unfolding pan_angle
  left_gain v = s_mul v.level (s_cos (pan_angle v))

  unfoldable pub right_gain : VoiceMix → S
  unfolding pan_angle
  right_gain v = s_mul v.level (s_sin (pan_angle v))

  -- The dry sample `x` of a voice, added to frame `f` of `out`.
  unfoldable pub mix_frame : ℕ → S → S → ℕ → S → List S → List S
  mix_frame channels gl gr f x out =
      let left = update_at (f * channels + 0) (λ y. s_add y (s_mul x gl)) out in
      if ltb 1 channels then update_at (f * channels + 1) (λ y. s_add y (s_mul x gr)) left else left

  -- The loop that adds the dry output of a voice to `out`, from frame `f` on.
  unfoldable pub mix_frames : ℕ → S → S → ℕ → List S → List S → List S
  unfolding mix_frame
  mix_frames channels gl gr f [] out = out
  mix_frames channels gl gr f (x ∷ o) out =
      mix_frames channels gl gr (suc f) o (mix_frame channels gl gr f x out)

  -- `processBlockMono` writes a block to the start of a row of `cur_out`.
  abbrev pub overwrite : List S → List S → List S
  overwrite o row = o ++ drop (length o) row

  -- What a block leaves: the output, the rows of `cur_out`, the arrays and the DSP voices.
  pub record Mixed : Type 0 where
    pub out : List S
    pub cur_out : List (List S)
    pub arrays : List (List S)
    pub dsps : List Dsp

  unfoldable pub voice_input :
      List S → ℕ → ℕ → Option (List S) → ℕ → List (List S) → VoiceMix → List S
  unfolding gained feedback_into
  voice_input fb n_voices dst ext_in frames prev_out v =
      feedback_into fb n_voices dst 0 prev_out (gained ext_in v.input_gain frames)

  module _ (fb : List S) (n_voices channels : ℕ) (ext_in : Option (List S)) (frames : ℕ)
      (prev_out : List (List S)) where
    -- The row of `cur_out` that voice `dst` leaves.
    abbrev pub voice_row : ℕ → VoiceMix → Mixed → List S
    voice_row dst v m =
        let voice_in = voice_input fb n_voices dst ext_in frames prev_out v in
        overwrite (process_mono voice_in m.arrays v.sc).0 (get_or m.cur_out dst [])

    -- The body of the loop over `dst`.
    unfoldable pub process_voice : ℕ → VoiceMix → Mixed → Mixed
    unfolding voice_input left_gain right_gain mix_frames
    process_voice dst v m =
        let voice_in = voice_input fb n_voices dst ext_in frames prev_out v in
        let (o, arrays, dsp) = process_mono voice_in m.arrays v.sc in
        let row = voice_row dst v m in
        record {
          out = mix_frames channels (left_gain v) (right_gain v) 0 (take frames row) m.out;
          cur_out = set m.cur_out dst row;
          arrays = arrays;
          dsps = m.dsps ++ (dsp ∷ []);
        }

    -- The loop over `dst`, at the voices that are left.
    unfoldable pub process_voices : ℕ → List VoiceMix → Mixed → Mixed
    unfolding process_voice
    process_voices dst [] m = m
    process_voices dst (v ∷ voices) m = process_voices (suc dst) voices (process_voice dst v m)

    unfoldable pub process_block : List VoiceMix → List (List S) → List (List S) → Mixed
    unfolding process_voices
    process_block voices cur_out arrays = process_voices 0 voices (record {
      out = replicate (frames * channels) (s_lit (pos 0));
      cur_out = cur_out;
      arrays = arrays;
      dsps = [];
    })
