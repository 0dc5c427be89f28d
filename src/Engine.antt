-- ===== src/Engine.antt =====
-- The engine: src/softcut/__init__.py over the `Engine` and the property setters of
-- src/softcut/_core.cpp. A Python `Voice` is its place among the engine's voices, an array its place
-- in `arrays`, so that voices share arrays as the program's do.
pub mod Attributes
pub mod Methods
pub mod Queue
pub mod Heads
pub mod Pending
pub mod Context
pub mod OscQueue
pub mod Render
pub mod Feedback
pub mod Views
pub mod Assign
pub mod Shape
use softcut_py.Base.{
  ℕ, zero, suc, ◌+◌, ◌-◌, ◌*◌, String, Bool, true, false, not, ◌&&◌, ◌||◌, Option, none, some, List,
  [], ◌∷◌, ◌++◌, ◌==◌, string_eq, nat_eq, if◌then◌else◌, length, get_elem?, ltb, leb,
}
use softcut_py.Base.Int.{ℤ, pos}
use softcut_py.Base.Slice.{index_of}
use softcut_py.Base.Dict.{Dict}
use softcut_py.Base.Exec.{
  Exec, Result, ok, err, pure, raise, lift, gets, or_raise, ◌>>=◌, ◌>>◌, modify, raise_if, for_each,
  and_then, index_error, value_error, type_error, attribute_error, runtime_error,
}
use softcut_py.Bits.{is_power_of_two}
use softcut_py.Platform.{
  Platform, Command, truthy, set_param, set_flag, set_rec_flag, set_rec_once_flag, set_sample_rate,
  cut_to_pos, stop_heads, reset_voice, set_buffer, set_fade_shape,
}
use softcut_py.Voice.{
  Voice, contains, param_props, mix_props, flag_props, perform, reset_params, is_flag_change,
  with_param, with_flag,
}

-- `xs[i] = f(xs[i])`
abbrev pub update_at {ℓ} : {A : Type ℓ} → ℕ → (A → A) → List A → List A
update_at i f [] = []
update_at zero f (x ∷ xs) = f x ∷ xs
update_at (suc i) f (x ∷ xs) = x ∷ update_at i f xs

-- `CommandQueue::CAP - 1`: one place of the ring always stays free.
abbrev pub queue_room : ℕ
queue_room = 4095

module _ (p : Platform) where
  open p use {F, S, s_lit, narrow, widen}

  pub record Engine : Type 0 where
    pub voices : List (Voice p)
    -- what waits for the audio thread, each with the place of its voice
    pub queue : List (ℕ × Command S)
    -- the same for the changes of the native OSC receiver
    pub osc_queue : List (ℕ × Command S)
    pub running : Bool
    -- `fb[src * n_voices + dst]`
    pub fb : List S
    -- what each voice put out in the last block, and where the next block goes: a row for each
    pub prev_out : List (List S)
    pub cur_out : List (List S)
    pub arrays : List (List S)
    pub sample_rate : F
    pub mode : String
    pub block_size : ℤ
    pub out_channels : ℤ

  -- A Python value assigned to an attribute; `arr` is a float32 array, `region` a pair of floats.
  pub data Value : Type 0 where
    num : F → Value
    flag : Bool → Value
    text : String → Value
    arr : ℕ → Value
    region : F → F → Value

  abbrev pub on_voice : ℕ → (Voice p → Voice p) → Engine → Engine
  on_voice i f e = record e { voices = update_at i f e.voices }

  -- `dsp_apply`: at once, or by the queue while the engine runs. When the queue is full and stays
  -- full through the retries, the change is counted as dropped; the result tells.
  unfoldable pub dsp_apply : ℕ → Command S → Engine → Bool × Engine
  unfolding perform
  dsp_apply i c e =
      if e.running
      then if ltb (length e.queue) queue_room
        then (true, record e { queue = e.queue ++ ((i, c) ∷ []) })
        else (false, on_voice i (λ v. record v { dropped = v.dropped + 1 }) e)
      else (true, on_voice i (perform p c) e)

  -- `flag_apply`: a change that is dropped is no longer pending.
  unfoldable pub flag_apply : ℕ → Command S → Engine → Engine
  unfolding dsp_apply
  flag_apply i c e =
      let e1 = on_voice i (λ v. record v { pending = v.pending + 1 }) e in
      let e2 = (dsp_apply i c e1).1 in
      if (dsp_apply i c e1).0 then e2 else on_voice i (λ v. record v { pending = v.pending - 1 }) e2

  -- `while (queue.pop(fn)) fn();`: in the order of the pushes.
  unfoldable pub drain : List (ℕ × Command S) → List (Voice p) → List (Voice p)
  unfolding perform
  drain [] vs = vs
  drain ((i, c) ∷ queue) vs = drain queue (update_at i (perform p c) vs)

  unfoldable pub drain_commands : Engine → Engine
  unfolding drain
  drain_commands e = record e {
    voices = drain e.osc_queue (drain e.queue e.voices);
    queue = [];
    osc_queue = [];
  }

  -- `start()`: `opened` tells whether the device could be opened and started.
  unfoldable pub start : Bool → Exec Engine Unit
  start opened e =
      if e.running
      then (ok tt, e)
      else if opened
      then (ok tt, record e { running = true })
      else (err runtime_error, e)

  -- `stop()`: the flag is lowered before the last drain.
  unfoldable pub stop : Engine → Engine
  unfolding drain_commands
  stop e = if e.running then drain_commands (record e { running = false }) else e

  -- `_voices[index]`
  unfoldable pub voice_at : ℤ → Exec Engine ℕ
  voice_at index e = or_raise (index_of (length e.voices) index) index_error e

  -- The property setters of the binding, on a voice of the engine.

  unfoldable pub store_param : ℕ → String → S → Engine → Engine
  unfolding dsp_apply
  store_param i k x e = (dsp_apply i (set_param k x) (on_voice i (with_param p k x) e)).1

  unfoldable pub store_flag : ℕ → String → Bool → Engine → Engine
  unfolding dsp_apply
  store_flag i k x e = (dsp_apply i (set_flag k x) (on_voice i (with_flag p k x) e)).1

  -- rec off cancels rec_once
  unfoldable pub set_rec : ℕ → Bool → Engine → Engine
  unfolding flag_apply
  set_rec i x e =
      let mirrored = on_voice i (with_flag p "rec" x) e in
      flag_apply i (set_rec_flag x)
        (if x then mirrored else on_voice i (with_flag p "rec_once" false) mirrored)

  -- rec_once on sets rec
  unfoldable pub set_rec_once : ℕ → Bool → Engine → Engine
  unfolding flag_apply
  set_rec_once i x e =
      let mirrored = on_voice i (with_flag p "rec_once" x) e in
      flag_apply i (set_rec_once_flag x)
        (if x then on_voice i (with_flag p "rec" true) mirrored else mirrored)

  unfoldable pub cut_to : ℕ → F → Engine → Engine
  unfolding dsp_apply
  cut_to i sec e = (dsp_apply i (cut_to_pos (narrow sec)) e).1

  -- `Voice.reset()`
  unfoldable pub reset : ℕ → Engine → Engine
  unfolding flag_apply reset_params
  reset i e = on_voice i (reset_params p) (flag_apply i reset_voice e)

  -- `buffer_frames_`
  unfoldable pub frames_of : ℕ → Engine → ℕ
  frames_of i e = elim (get_elem? e.voices i) [ none ↦ 0 | some v ↦ v.frames ]

  -- `set_buffer`, on an array of `n` frames.
  unfoldable pub assign_array : ℕ → ℕ → ℕ → Exec Engine Unit
  unfolding dsp_apply frames_of is_power_of_two perform
  assign_array i a n e =
      if not (is_power_of_two n)
      then (err value_error, e)
      else if not e.running
      then (
        ok tt,
        on_voice i (λ v. record (perform p (set_buffer a) v) { buffer = some a; frames = n }) e,
      )
      else if not (n == frames_of i e)
      then (err runtime_error, e)
      else let e' = (dsp_apply i (set_buffer a) e).1 in
        if (dsp_apply i (set_buffer a) e).0
        then (ok tt, on_voice i (λ v. record v { buffer = some a }) e')
        else (err runtime_error, e')

  unfoldable pub set_voice_buffer : ℕ → ℕ → Exec Engine Unit
  unfolding assign_array
  set_voice_buffer i a e = elim (get_elem? e.arrays a) [
    | none ↦ (err type_error, e)
    | some samples ↦ assign_array i a (length samples) e
  ]
