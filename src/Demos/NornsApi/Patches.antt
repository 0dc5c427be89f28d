-- ===== src/Demos/NornsApi/Patches.antt =====
-- What the setups of demos/12_norns_api.py leave of voice 1, after whichever setups came before.
use softcut_py.Base.{
  ℕ, zero, suc, ◌+◌, ◌≤◌, ◌<◌, range_from, ◌≡◌, refl, String, true, false, some, List, [], ◌∷◌,
  ◌++◌, map, string_eq, arith,
}
use softcut_py.Base.Int.{ℤ, pos, negsuc, int_eq}
use softcut_py.Base.Dict.{lookup}
use softcut_py.Base.Exec.{Exec, ok, ◌>>◌, for_each}
use softcut_py.Platform.{Platform}
use softcut_py.Norns.{Host, float_params, call_method, bool_setter, position}
use softcut_py.Norns.Shape.{Layout}
use softcut_py.Demos.NornsApi.{
  decimal, loop_length, rev_start, rev_dur, voice_off, all_off, s1_forward, s2_lowpass,
  s3_octave_down, s4_reverse, stereo_voice, s5_stereo, play_copy, reversed_copy, s6_reversed_copy,
  Step, forward_loop, low_pass, octave_down, backwards, stereo, copied_loop, setup,
}
use softcut_py.Demos.NornsApi.Writes.{
  Writes, Ready, Studio, HasBuffer, Writes-seq, Writes-quiet, Writes-nil, Writes-cons, Writes-float,
}
use softcut_py.Demos.NornsApi.Quiet.{Writes-play, Writes-loop, Writes-rec, Writes-position}
use softcut_py.Demos.NornsApi.Routing.{Writes-buffer}
use softcut_py.Demos.NornsApi.Copy.{Writes-copy}

module _ (p : Platform) where
  open p use {F, S, lit, fadd, narrow}

  abbrev pub Entry : Type 0
  Entry = ℕ × String × S

  -- The writes of a looped voice: rate, level, pan, the loop and the fade time.
  abbrev pub loop_writes : ℕ → F → F → F → F → F → List Entry
  loop_writes k level pan first last fade =
      (k, "rate", narrow (lit (pos 1)))
      ∷ (k, "level", narrow level)
      ∷ (k, "pan", narrow pan)
      ∷ (k, "loop_start", narrow first)
      ∷ (k, "loop_end", narrow last)
      ∷ (k, "fade_time", narrow fade)
      ∷ []

  abbrev pub filter_writes : F → F → List Entry
  filter_writes dry lp = (0, "post_filter_dry", narrow dry) ∷ (0, "post_filter_lp", narrow lp) ∷ []

  abbrev pub forward_writes : List Entry
  forward_writes =
      loop_writes 0 (decimal p (pos 85) 100) (lit (pos 0)) (lit (pos 0)) (loop_length p)
        (decimal p (pos 1) 100)
      ++ filter_writes (lit (pos 1)) (lit (pos 0))

  abbrev pub copy_writes : List Entry
  copy_writes =
      loop_writes 0 (decimal p (pos 85) 100) (lit (pos 0)) (rev_start p)
        (fadd (rev_start p) (rev_dur p)) (decimal p (pos 2) 100)
      ++ filter_writes (lit (pos 1)) (lit (pos 0))

  abbrev pub stereo_writes : ℕ → F → List Entry
  stereo_writes k pan =
      loop_writes k (decimal p (pos 8) 10) pan (lit (pos 0)) (loop_length p) (decimal p (pos 1) 100)

  abbrev pub writes : Step → List Entry
  writes forward_loop = forward_writes
  writes low_pass =
      forward_writes
      ++ (filter_writes (lit (pos 0)) (lit (pos 1))
          ++ ((0, "post_filter_fc", narrow (lit (pos 800))) ∷ []))
  writes octave_down = forward_writes ++ ((0, "rate", narrow (decimal p (pos 1) 2)) ∷ [])
  writes backwards = forward_writes ++ ((0, "rate", narrow (lit (negsuc 0))) ∷ [])
  writes stereo =
      stereo_writes 0 (decimal p (negsuc 5) 10) ++ stereo_writes 1 (decimal p (pos 6) 10)
  writes copied_loop = copy_writes

  module _ {l : Layout F} (studio : Studio p l) where
    -- A float of the table under its own name, before other calls.
    float :
        (name : String) (k : ℕ) (x : F) {vs : List Entry} {n : Exec (Host p) Unit}
        → lookup name float_params ≡ some name
        → k < 6
        → Writes p l vs n
        → Writes p l ((k, name, narrow x) ∷ vs) (call_method p name (pos (suc k)) x >> n)
    float name k x {vs} {n} found lt w =
        Writes-seq p ((k, name, narrow x) ∷ []) vs (call_method p name (pos (suc k)) x) n
          (Writes-float p studio name name k x found lt) w

    voice_off-Writes : (k : ℕ) → k < 6 → Writes p l [] (voice_off p (pos (suc k)))
    unfolding voice_off
    voice_off-Writes k lt =
        Writes-quiet p (Writes-play p studio k false lt) (Writes-rec p studio k false lt)

    offs-Writes :
        (k n : ℕ)
        → k + n ≤ 6
        → Writes p l [] (for_each (map pos (range_from (suc k) n)) (voice_off p))
    offs-Writes k zero room = Writes-nil p (voice_off p)
    offs-Writes k (suc n) room =
        Writes-cons p [] [] (pos (suc k)) (map pos (range_from (suc (suc k)) n)) (voice_off p)
          (voice_off-Writes k (omega arith)) (offs-Writes (suc k) n (omega arith))

    all_off-Writes : Writes p l [] (all_off p)
    unfolding all_off
    all_off-Writes = offs-Writes 0 6 (omega arith)

    -- From the rate to the fade time, before the last calls.
    looped :
        (k : ℕ) (level pan first last fade : F) {vs : List Entry} {n : Exec (Host p) Unit}
        → k < 6
        → Writes p l vs n
        → Writes p l (loop_writes k level pan first last fade ++ vs) (do
          call_method p "rate" (pos (suc k)) (lit (pos 1))
          call_method p "level" (pos (suc k)) level
          call_method p "pan" (pos (suc k)) pan
          bool_setter p "loop" (pos (suc k)) true
          call_method p "loop_start" (pos (suc k)) first
          call_method p "loop_end" (pos (suc k)) last
          call_method p "fade_time" (pos (suc k)) fade
          n)
    looped k level pan first last fade lt w = float "rate" k _ refl lt (
        float "level" k _ refl lt (
          float "pan" k _ refl lt (
            Writes-quiet p (Writes-loop p studio k true lt) (
              float "loop_start" k _ refl lt
                (float "loop_end" k _ refl lt (float "fade_time" k _ refl lt w))))))

    -- The filter bypassed, and playing from `start` on.
    started :
        (start : F)
        → Writes p l (filter_writes (lit (pos 1)) (lit (pos 0))) (do
          call_method p "post_filter_dry" (pos 1) (lit (pos 1))
          call_method p "post_filter_lp" (pos 1) (lit (pos 0))
          position p (pos 1) start
          bool_setter p "play" (pos 1) true)
    started start = float "post_filter_dry" 0 _ refl (omega arith) (
        float "post_filter_lp" 0 _ refl (omega arith) (
          Writes-quiet p (Writes-position p studio 0 start (omega arith))
            (Writes-play p studio 0 true (omega arith))))

    s1_forward-Writes : Writes p l forward_writes (s1_forward p)
    unfolding s1_forward
    s1_forward-Writes = Writes-quiet p all_off-Writes (
        Writes-quiet p (Writes-buffer p studio (pos 1) studio.first 0 (omega arith))
          (looped 0 _ _ _ _ _ (omega arith) (started (lit (pos 0)))))

    play_copy-Writes : Writes p l copy_writes (play_copy p)
    unfolding play_copy
    play_copy-Writes = Writes-quiet p all_off-Writes (
        Writes-quiet p (Writes-buffer p studio (pos 1) studio.first 0 (omega arith))
          (looped 0 _ _ _ _ _ (omega arith) (started (rev_start p))))

    stereo_voice-Writes :
        (k : ℕ) (b : ℤ) (pan : F)
        → HasBuffer p l b
        → k < 6
        → Writes p l (stereo_writes k pan) (stereo_voice p (pos (suc k)) b pan)
    unfolding stereo_voice
    stereo_voice-Writes k b pan array lt = Writes-quiet p (Writes-buffer p studio b array k lt) (
        looped k _ _ _ _ _ lt (
          Writes-quiet p (Writes-position p studio k (lit (pos 0)) lt)
            (Writes-play p studio k true lt)))

    -- The calls after the first setup in the three that begin with it.
    filtered :
        Writes p l
          (filter_writes (lit (pos 0)) (lit (pos 1))
            ++ ((0, "post_filter_fc", narrow (lit (pos 800))) ∷ []))
          (do
            call_method p "post_filter_dry" (pos 1) (lit (pos 0))
            call_method p "post_filter_lp" (pos 1) (lit (pos 1))
            call_method p "post_filter_fc" (pos 1) (lit (pos 800)))
    filtered = float "post_filter_dry" 0 _ refl (omega arith) (
        float "post_filter_lp" 0 _ refl (omega arith)
          (Writes-float p studio "post_filter_fc" "post_filter_fc" 0 _ refl (omega arith)))

    pub setup-Writes :
        ((h : Host p) → Ready p l h → (reversed_copy p h).0 ≡ ok tt)
        → (s : Step) → Writes p l (writes s) (setup p s)
    unfolding setup s2_lowpass s3_octave_down s4_reverse s5_stereo s6_reversed_copy
    setup-Writes copies forward_loop = s1_forward-Writes
    setup-Writes copies low_pass = Writes-seq p _ _ _ _ s1_forward-Writes filtered
    setup-Writes copies octave_down =
        Writes-seq p _ _ _ _ s1_forward-Writes
          (Writes-float p studio "rate" "rate" 0 _ refl (omega arith))
    setup-Writes copies backwards = Writes-seq p _ _ _ _ s1_forward-Writes (
        Writes-seq p _ _ _ _ (Writes-float p studio "rate" "rate" 0 _ refl (omega arith))
          (Writes-position p studio 0 (loop_length p) (omega arith)))
    setup-Writes copies stereo = Writes-quiet p all_off-Writes (
        Writes-seq p _ _ _ _ (stereo_voice-Writes 0 (pos 1) _ studio.first (omega arith))
          (stereo_voice-Writes 1 (pos 2) _ studio.second (omega arith)))
    setup-Writes copies copied_loop = Writes-quiet p (Writes-copy p copies) play_copy-Writes
