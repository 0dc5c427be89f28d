-- ===== src/Demos/NornsApi.antt =====
-- The six setups of demos/12_norns_api.py, which plays them one after the other on the norns facade. A
-- call such as `softcut.rate(1, 1.0)` reaches the process-wide host, which is the state here.
pub mod Writes
pub mod Quiet
pub mod Routing
pub mod Copy
pub mod Patches
pub mod Playlist
use softcut_py.Base.{ℕ, String, Bool, true, false, List, [], ◌∷◌}
use softcut_py.Base.Int.{ℤ, pos, negsuc}
use softcut_py.Base.Exec.{Exec, ◌>>=◌, ◌>>◌, for_each}
use softcut_py.Platform.{Platform}
use softcut_py.Norns.{Host, voice_numbers, position, buffer, bool_setter, call_method}
use softcut_py.Norns.Regions.{buffer_copy_mono}

-- The entries of STEPS.
pub data Step : Type 0 where
  forward_loop low_pass octave_down backwards stereo copied_loop : Step

abbrev pub steps : List Step
steps = forward_loop ∷ low_pass ∷ octave_down ∷ backwards ∷ stereo ∷ copied_loop ∷ []

module _ (p : Platform) where
  open p use {F, lit, fadd, fdiv}

  -- A decimal literal.
  abbrev pub decimal : ℤ → ℕ → F
  decimal n d = fdiv (lit n) (lit (pos d))

  -- LOOP, REV_START and REV_DUR
  abbrev pub loop_length : F
  loop_length = decimal (pos 25) 10

  abbrev pub rev_start : F
  rev_start = lit (pos 3)

  abbrev pub rev_dur : F
  rev_dur = lit (pos 2)

  -- `softcut.play(i, x)`, `softcut.rec(i, x)` and `softcut.loop(i, x)`, with 0 or 1 as `x`
  abbrev pub play_voice : ℤ → Bool → Exec (Host p) Unit
  play_voice i x = bool_setter p "play" i x

  abbrev pub rec_voice : ℤ → Bool → Exec (Host p) Unit
  rec_voice i x = bool_setter p "rec" i x

  abbrev pub loop_voice : ℤ → Bool → Exec (Host p) Unit
  loop_voice i x = bool_setter p "loop" i x

  unfoldable pub voice_off : ℤ → Exec (Host p) Unit
  voice_off i = play_voice i false >> rec_voice i false

  unfoldable pub all_off : Exec (Host p) Unit
  all_off = for_each (voice_numbers 6) voice_off

  unfoldable pub s1_forward : Exec (Host p) Unit
  s1_forward = do
    all_off
    buffer p (pos 1) (pos 1)
    call_method p "rate" (pos 1) (lit (pos 1))
    call_method p "level" (pos 1) (decimal (pos 85) 100)
    call_method p "pan" (pos 1) (lit (pos 0))
    loop_voice (pos 1) true
    call_method p "loop_start" (pos 1) (lit (pos 0))
    call_method p "loop_end" (pos 1) loop_length
    call_method p "fade_time" (pos 1) (decimal (pos 1) 100)
    call_method p "post_filter_dry" (pos 1) (lit (pos 1))
    call_method p "post_filter_lp" (pos 1) (lit (pos 0))
    position p (pos 1) (lit (pos 0))
    play_voice (pos 1) true

  unfoldable pub s2_lowpass : Exec (Host p) Unit
  s2_lowpass = do
    s1_forward
    call_method p "post_filter_dry" (pos 1) (lit (pos 0))
    call_method p "post_filter_lp" (pos 1) (lit (pos 1))
    call_method p "post_filter_fc" (pos 1) (lit (pos 800))

  unfoldable pub s3_octave_down : Exec (Host p) Unit
  s3_octave_down = s1_forward >> call_method p "rate" (pos 1) (decimal (pos 1) 2)

  unfoldable pub s4_reverse : Exec (Host p) Unit
  s4_reverse = do
    s1_forward
    call_method p "rate" (pos 1) (lit (negsuc 0))
    position p (pos 1) loop_length

  -- The body of the loop of `s5_stereo`, for voice `i`.
  unfoldable pub stereo_voice : ℤ → ℤ → F → Exec (Host p) Unit
  stereo_voice i buf pan = do
    buffer p i buf
    call_method p "rate" i (lit (pos 1))
    call_method p "level" i (decimal (pos 8) 10)
    call_method p "pan" i pan
    loop_voice i true
    call_method p "loop_start" i (lit (pos 0))
    call_method p "loop_end" i loop_length
    call_method p "fade_time" i (decimal (pos 1) 100)
    position p i (lit (pos 0))
    play_voice i true

  unfoldable pub s5_stereo : Exec (Host p) Unit
  s5_stereo = do
    all_off
    stereo_voice (pos 1) (pos 1) (decimal (negsuc 5) 10)
    stereo_voice (pos 2) (pos 2) (decimal (pos 6) 10)

  -- What `s6_reversed_copy` does after the copy.
  unfoldable pub play_copy : Exec (Host p) Unit
  play_copy = do
    all_off
    buffer p (pos 1) (pos 1)
    call_method p "rate" (pos 1) (lit (pos 1))
    call_method p "level" (pos 1) (decimal (pos 85) 100)
    call_method p "pan" (pos 1) (lit (pos 0))
    loop_voice (pos 1) true
    call_method p "loop_start" (pos 1) rev_start
    call_method p "loop_end" (pos 1) (fadd rev_start rev_dur)
    call_method p "fade_time" (pos 1) (decimal (pos 2) 100)
    call_method p "post_filter_dry" (pos 1) (lit (pos 1))
    call_method p "post_filter_lp" (pos 1) (lit (pos 0))
    position p (pos 1) rev_start
    play_voice (pos 1) true

  abbrev pub reversed_copy : Exec (Host p) Unit
  reversed_copy =
      buffer_copy_mono p (pos 1) (pos 1) (lit (pos 0)) rev_start rev_dur (lit (pos 0)) (lit (pos 0))
        true

  unfoldable pub s6_reversed_copy : Exec (Host p) Unit
  s6_reversed_copy = reversed_copy >> play_copy

  unfoldable pub setup : Step → Exec (Host p) Unit
  setup forward_loop = s1_forward
  setup low_pass = s2_lowpass
  setup octave_down = s3_octave_down
  setup backwards = s4_reverse
  setup stereo = s5_stereo
  setup copied_loop = s6_reversed_copy
