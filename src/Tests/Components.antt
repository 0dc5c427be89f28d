-- ===== src/Tests/Components.antt =====
-- Runs of the parts below the server.
use softcut_py.Base.{
  ℕ, ◌≤◌, ◌^◌, ◌≡◌, ◌⊎◌, refl, true, false, Option, none, some, List, [], ◌∷◌, map, arith, get_or,
  string_eq,
}
use softcut_py.Base.Int.{◌+ℤ◌, ◌*ℤ◌, ℤ, pos, negsuc, ◌≤ℤ◌, ◌-ℤ◌}
use softcut_py.Base.Exec.{ok, err, value_error, Exec}
use softcut_py.Platform.{Command, set_param}
use softcut_py.Sizes.{IsPowerOfTwo, next_power_of_two, next_power_of_two_least}
use softcut_py.Buffers.{apply_to_buffer}
use softcut_py.Buffers.Region.{apply_to_buffer-at}
use softcut_py.Engine.{Engine, set_voice_buffer, stop, frames_of}
use softcut_py.Engine.Queue.{apply_all, stop-apply_all}
use softcut_py.Engine.Methods.{set_feedback, get_feedback}
use softcut_py.Engine.Feedback.{get_feedback-set_feedback}
use softcut_py.Engine.Assign.{set_voice_buffer-running, is_err}
use softcut_py.Engine.Views.{view, flag_at, end_record-stops}
use softcut_py.Engine.Attributes.{end_record}
use softcut_py.Wav.{read_wav, write_wav, flat, check_view}
use softcut_py.Wav.Pcm.{float_to_s16, float_to_s16_bounds}
use softcut_py.Wav.RoundTrip.{quantized, read_wav-write_wav}
use softcut_py.Tests.{test_platform, test_engine, running_engine, test_disk}

next_power_of_two_least_example :
    IsPowerOfTwo (next_power_of_two (pos 5))
    × (pos 5 ≤ℤ pos (next_power_of_two (pos 5)))
    × (next_power_of_two (pos 5) ≤ 2 ^ 3)
next_power_of_two_least_example = next_power_of_two_least (pos 5) 3 (omega arith)

float_to_s16_bounds_example :
    (negsuc 32767 ≤ℤ float_to_s16 test_platform (pos 3))
    × (float_to_s16 test_platform (pos 3) ≤ℤ pos 32767)
float_to_s16_bounds_example = float_to_s16_bounds test_platform (pos 3)

abbrev burst : List (ℕ × Command ℤ)
burst = (0, set_param "rate" (pos 2)) ∷ (1, set_param "rate" (pos 3)) ∷ []

stop-apply_all_example :
    stop test_platform (apply_all test_platform burst running_engine)
    ≡ apply_all test_platform burst (stop test_platform running_engine)
stop-apply_all_example = stop-apply_all test_platform burst running_engine refl refl (omega arith)

read_wav-write_wav_example :
    ((write_wav test_platform "a.wav"
        (flat test_platform (pos 1 ∷ pos 0 ∷ []))
        (pos 8000)
        none
        test_disk).0
      ≡ ok tt)
    × (read_wav test_platform
          (write_wav test_platform "a.wav"
            (flat test_platform (pos 1 ∷ pos 0 ∷ []))
            (pos 8000)
            none
            test_disk).1
          "a.wav"
        ≡ ok (record {
          samples = map (quantized test_platform) (pos 1 ∷ pos 0 ∷ []);
          channels = 1;
          rate = 8000;
        }))
unfolding check_view
read_wav-write_wav_example =
    read_wav-write_wav test_platform "a.wav" (flat test_platform (pos 1 ∷ pos 0 ∷ [])) 8000 none
      test_disk refl refl (omega arith) refl

set_voice_buffer-running_example :
    (IsPowerOfTwo 4 × (4 ≡ frames_of test_platform 0 running_engine))
    ⊎ ((is_err (set_voice_buffer test_platform 0 1 running_engine).0 ≡ true)
        × ((set_voice_buffer test_platform 0 1 running_engine).1 ≡ running_engine))
set_voice_buffer-running_example =
    set_voice_buffer-running test_platform 0 1 running_engine (pos 5 ∷ pos 6 ∷ pos 7 ∷ pos 8 ∷ [])
      refl refl

get_feedback-set_feedback_example :
    ((set_feedback test_platform (pos 0) (pos 1) (pos 9) test_engine).0 ≡ ok tt)
    × ((get_feedback test_platform
          (pos 1)
          (pos 0)
          (set_feedback test_platform (pos 0) (pos 1) (pos 9) test_engine).1).0
        ≡ (get_feedback test_platform (pos 1) (pos 0) test_engine).0)
get_feedback-set_feedback_example =
    get_feedback-set_feedback test_platform 0 1 1 0 (pos 9) test_engine refl (omega arith)
      (omega arith) (omega arith) (omega arith) (omega arith)

abbrev failing_body : Exec (Engine test_platform) Unit
failing_body e = (err value_error, e)

end_record-stops_example :
    ((end_record test_platform 0 failing_body running_engine).0 ≡ err value_error)
    × (flag_at test_platform "rec" 0 (end_record test_platform 0 failing_body running_engine).1
        ≡ view test_platform (λ v. false) 0 running_engine)
    × (flag_at test_platform "rec_once" 0 (end_record test_platform 0 failing_body running_engine).1
        ≡ view test_platform (λ v. false) 0 running_engine)
end_record-stops_example = end_record-stops test_platform 0 failing_body running_engine

abbrev old_samples : List ℤ
old_samples = pos 1 ∷ pos 2 ∷ pos 3 ∷ pos 4 ∷ []

abbrev new_samples : Option (List ℤ)
new_samples = some (pos 7 ∷ pos 9 ∷ [])

apply_to_buffer-at_example :
    get_or
      (apply_to_buffer test_platform old_samples
        (pos 1)
        new_samples
        (pos 2)
        (pos 0)
        (pos 1)
        (pos 0))
      2
      (pos 0)
    ≡ pos 9
unfolding ◌-ℤ◌ ◌+ℤ◌ ◌*ℤ◌
apply_to_buffer-at_example =
    apply_to_buffer-at test_platform old_samples (pos 1) new_samples (pos 2) (pos 0) (pos 1) (pos 0)
      2
