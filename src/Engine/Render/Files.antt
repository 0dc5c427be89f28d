-- ===== src/Engine/Render/Files.antt =====
-- `Engine.render_to` of src/softcut/__init__.py: a render written to a WAV file.
use softcut_py.Base.{
  ℕ, ◌*◌, ◌%◌, ◌≤◌, ◌≡◌, refl, ◌∙◌, ap, arith, String, false, true, Option, none, some, List, [],
  ◌∷◌, map, length, suc,
}
use native.Mathlib.Nat.{mul-mod_left}
use softcut_py.Base.Int.{pos, pos_part, ltb_ℤ}
use softcut_py.Base.Exec.{Result, ok, err}
use softcut_py.Platform.{Platform}
use softcut_py.Wav.{Disk, write_wav, read_wav, check_view, channel_count, flat, header_fits}
use softcut_py.Wav.RoundTrip.{quantized, read_wav-write_wav}
use softcut_py.Engine.{Engine}
use softcut_py.Engine.Render.{render, process_core}
use softcut_py.Engine.Render.Cut.{cut}
use softcut_py.Engine.Render.Rounds.{play}
use softcut_py.Engine.Render.Blocks.{played, length-played}
use softcut_py.Engine.Render.Calls.{render-played}

module _ (p : Platform) where
  open p use {F, S, trunc}

  -- `write_wav(path, frames, int(self._sample_rate), channels=self.out_channels)`
  unfoldable pub write_frames_of : String → List S → Engine p → Disk → Result (Unit {0}) × Disk
  write_frames_of path frames e d = elim (trunc e.sample_rate) [
    | err x ↦ (err x, d)
    | ok rate ↦ write_wav p path (flat p frames) rate (some e.out_channels) d
  ]

  -- What follows the render, if it returned.
  abbrev pub then_write :
      String
      → Option (Result (List S) × Engine p)
      → Disk
      → Option (Result (Unit {0}) × Engine p × Disk)
  then_write path none d = none
  then_write path (some (err x, e)) d = some (err x, e, d)
  then_write path (some (ok frames, e)) d =
      some ((write_frames_of path frames e d).0, e, (write_frames_of path frames e d).1)

  unfoldable pub render_to :
      String
      → Option (List S)
      → Option (List S)
      → Option F
      → Engine p
      → Disk
      → Option (Result (Unit {0}) × Engine p × Disk)
  unfolding render write_frames_of
  render_to path input out seconds e d = then_write path (render p input out seconds e) d

  -- Samples that make whole frames are accepted.
  check_view-frames :
      (o : List S) (n c : ℕ)
      → 1 ≤ c
      → length o ≡ n * c
      → check_view p (flat p o) (some (pos c)) ≡ ok c
  unfolding check_view channel_count
  check_view-frames o n c some_channel size =
      let whole : length o % c ≡ 0 = rw size (mul-mod_left n c) in
      let wide : ltb_ℤ (pos c) (pos 1) ≡ false = ground arith in rw (wide, whole) refl

  write_frames_of-write_wav :
      (path : String) (frames : List S) (e : Engine p) (d : Disk) (rate channels : ℕ)
      → trunc e.sample_rate ≡ ok (pos rate)
      → e.out_channels ≡ pos channels
      → write_frames_of path frames e d
        ≡ write_wav p path (flat p frames) (pos rate) (some (pos channels)) d
  unfolding write_frames_of
  write_frames_of-write_wav path frames e d rate channels whole wide =
      rw (whole, wide, write_frames_of) refl

  -- Rendering keeps the engine's settings.

  play-out_channels :
      (blocks : List (List S)) (e : Engine p) → (play p blocks e).1.out_channels ≡ e.out_channels
  unfolding play process_core
  play-out_channels [] e = refl
  play-out_channels (block ∷ blocks) e =
      play-out_channels blocks (process_core p block (length block) e).1

  play-sample_rate :
      (blocks : List (List S)) (e : Engine p) → (play p blocks e).1.sample_rate ≡ e.sample_rate
  unfolding play process_core
  play-sample_rate [] e = refl
  play-sample_rate (block ∷ blocks) e =
      play-sample_rate blocks (process_core p block (length block) e).1

  played-out_channels :
      (xs : List S) (e : Engine p) → (played p xs e).1.out_channels ≡ e.out_channels
  unfolding played
  played-out_channels xs e = play-out_channels (cut (suc (length xs)) (pos_part e.block_size) xs) e

  played-sample_rate : (xs : List S) (e : Engine p) → (played p xs e).1.sample_rate ≡ e.sample_rate
  unfolding played
  played-sample_rate xs e = play-sample_rate (cut (suc (length xs)) (pos_part e.block_size) xs) e

  -- Rendering an input to a file whose path can be written, on a stopped engine with a whole sample rate
  -- and at least one output channel, where the fields of the header fit, returns; the file then reads back with the engine's channels and
  -- rate, and its samples are those of the render, each as the step of the 16-bit scale that it was
  -- rounded to.
  pub read_wav-render_to :
      (path : String) (xs : List S) (rate channels : ℕ) (e : Engine p) (d : Disk)
      → e.running ≡ false
      → 1 ≤ pos_part e.block_size
      → e.out_channels ≡ pos channels
      → 1 ≤ channels
      → trunc e.sample_rate ≡ ok (pos rate)
      → 1 ≤ rate
      → d.refused path ≡ none
      → header_fits p channels rate (2 * (length xs * channels)) ≡ true
      → (d' : Disk) × (render_to path (some xs) none none e d ≡ some (ok tt, (played p xs e).1, d'))
        × (read_wav p d' path
            ≡ ok (record {
              samples = map (quantized p) (played p xs e).0;
              channels = channels;
              rate = rate;
            }))
  unfolding render_to
  read_wav-render_to path xs rate channels e d stopped one wide some_channel whole positive free
        fits =
      let o = (played p xs e).0 in
      let e1 = (played p xs e).1 in
      let size : length o ≡ length xs * channels =
        length-played p xs e one ∙ ap (λ c. length xs * pos_part c) wide in
      let valid = check_view-frames o (length xs) channels some_channel size in
      let (wrote, reads) =
        read_wav-write_wav p path (flat p o) rate (some (pos channels)) d valid free positive
          (rw size fits) in
      let wide1 : e1.out_channels ≡ pos channels = played-out_channels xs e ∙ wide in
      let whole1 : trunc e1.sample_rate ≡ ok (pos rate) =
        ap trunc (played-sample_rate xs e) ∙ whole in
      (
        (write_wav p path (flat p o) (pos rate) (some (pos channels)) d).1,
        rw
            (
              render-played p xs e stopped one,
              write_frames_of-write_wav path o e1 d rate channels whole1 wide1,
              wrote,
            )
            refl,
        reads,
      )
