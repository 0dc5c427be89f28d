-- ===== src/Tests/Rendering.antt =====
-- Runs of the mixer, of `render` and of the live callback.
use softcut_py.Base.{
  ℕ, zero, suc, ◌≡◌, ◌<◌, ◌≤◌, ◌+◌, ◌*◌, refl, false, none, some, List, [], ◌∷◌, ◌++◌, length,
  get_or, arith, if◌then◌else◌, ltb, replicate,
}
use softcut_py.Base.Int.{ℤ, pos}
use softcut_py.Base.Exec.{Result, ok, err, value_error}
use softcut_py.Mixer.{VoiceMix, process_block, overwrite}
use softcut_py.Mixer.At.{mixdown, process_block-at}
use softcut_py.Engine.{Engine, drain_commands}
use softcut_py.Engine.Shape.{shape}
use softcut_py.Engine.Render.{render, callback_process, process_core, voice_mix}
use softcut_py.Engine.Render.Cut.{cut}
use softcut_py.Engine.Render.Rounds.{play}
use softcut_py.Engine.Render.Blocks.{played, callback_process-captured}
use softcut_py.Engine.Render.Calls.{render-played, render_into, render-append, render_returns}
use softcut_py.Engine.Render.Sized.{BlockLaws, IsSized, render-IsSized}
use softcut_py.Tests.{test_platform, test_voice, test_engine, running_engine}

abbrev four_samples : List ℤ
four_samples = pos 1 ∷ pos 2 ∷ pos 3 ∷ pos 4 ∷ []

abbrev two_samples : List ℤ
two_samples = pos 5 ∷ pos 6 ∷ []

abbrev after_four : Engine test_platform
after_four = (played test_platform four_samples test_engine).1

abbrev after_six : Engine test_platform
after_six = (played test_platform two_samples after_four).1

after_four-running : after_four.running ≡ false
unfolding played play cut process_core
after_four-running = refl

after_four-block_size : after_four.block_size ≡ pos 4
unfolding played play cut process_core
after_four-block_size = refl

render-append_example :
    render test_platform (some (four_samples ++ two_samples)) none none test_engine
    ≡ some (
      ok (
          (played test_platform four_samples test_engine).0
          ++ (played test_platform two_samples after_four).0),
      after_six,
    )
render-append_example =
    render-append test_platform 1 four_samples two_samples
      (played test_platform four_samples test_engine).0
      (played test_platform two_samples after_four).0 test_engine after_four after_six refl
      (omega arith) (omega arith)
      (render-played test_platform four_samples test_engine refl (omega arith))
      (render-played test_platform two_samples after_four after_four-running
        (rw after_four-block_size (omega arith)))

-- An output array that is too short for two channels.
render_into_example :
    render test_platform (some four_samples) (some two_samples) none test_engine ≡ (
      if ltb (length two_samples) (length four_samples * 2)
      then some (err value_error, test_engine)
      else some (
        ok (overwrite test_platform (played test_platform four_samples test_engine).0 two_samples),
        (played test_platform four_samples test_engine).1,
      ))
render_into_example =
    render_into test_platform four_samples two_samples test_engine refl (omega arith)

render_returns_example :
    (r : Result (List ℤ) × Engine test_platform) × (render test_platform none none
        (some (pos 9))
        test_engine
      ≡ some r)
render_returns_example =
    render_returns test_platform none none (some (pos 9)) test_engine (omega arith)

callback_process-captured_example :
    callback_process test_platform (some four_samples) 4 running_engine
    ≡ some (played test_platform four_samples (drain_commands test_platform running_engine))
callback_process-captured_example =
    callback_process-captured test_platform four_samples running_engine refl (omega arith)

abbrev test_block_laws : BlockLaws test_platform
test_block_laws = record { writes = λ xs arrays d. refl; keeps = λ xs arrays d. refl }

render-IsSized_example :
    IsSized test_platform after_four
    × (shape test_platform after_four ≡ shape test_platform test_engine)
render-IsSized_example =
    render-IsSized test_platform test_block_laws four_samples
      (played test_platform four_samples test_engine).0 test_engine after_four refl (omega arith)
      (record { prev_rows = refl; cur_rows = refl })
      (render-played test_platform four_samples test_engine refl (omega arith))

abbrev test_mix : List (VoiceMix test_platform)
test_mix = voice_mix test_platform test_voice ∷ voice_mix test_platform test_voice ∷ []

abbrev test_rows : List (List ℤ)
test_rows = replicate 2 (replicate 4 (pos 0))

process_block-at_example :
    get_or
      (process_block test_platform
        (replicate 4 (pos 1))
        2
        2
        (some two_samples)
        2
        test_rows
        test_mix
        test_rows
        []).out
      (1 * 2 + 1)
      (pos 0)
    ≡ mixdown test_platform 1 1 0 test_mix
        (process_block test_platform
          (replicate 4 (pos 1))
          2
          2
          (some two_samples)
          2
          test_rows
          test_mix
          test_rows
          []).cur_out
        (pos 0)
process_block-at_example =
    process_block-at test_platform (replicate 4 (pos 1)) 2 2 (some two_samples) 2 test_rows test_mix
      test_rows [] 1 1 (omega arith) (omega arith) (omega arith) rows
  where
    rows : (j : ℕ) → j < 2 → 2 ≤ length (get_or test_rows j [])
    rows zero h = omega arith
    rows (suc zero) h = omega arith
    rows (suc (suc j)) h = absurd (omega arith)
