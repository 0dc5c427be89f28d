-- ===== src/Demos/NornsApi/Copy.antt =====
-- `buffer_copy_mono` of src/softcut/norns.py leaves the voices alone.
use softcut_py.Base.{
  ℕ, ◌≡◌, refl, ap, ◌∙◌, String, Bool, true, Bool-cases, inl, inr, false, Option, some, List, [],
  get_elem?, length,
}
use mathlib.Core.Option
use softcut_py.Base.Int.{ℤ, pos, negsuc, ◌-ℤ◌, int_eq}
use softcut_py.Base.Dict.{Dict, lookup}
use softcut_py.Base.Exec.{Result, ok, err, modify, ◌>>=◌, resume, or_raise, gets, lift, pure}
use softcut_py.Base.Exec.Keeps.{Keeps, Keeps-if, Keeps-bind, Keeps-gets, Keeps-pure}
use softcut_py.Platform.{Platform, as_int64}
use softcut_py.Buffers.{buffer_apply, apply_to_buffer, apply_count}
use softcut_py.Voice.{Voice}
use softcut_py.Norns.{Host, frames}
use softcut_py.Norns.Regions.{
  frames_of, array_of, store_array, apply_at, apply, clear_count, buffer_copy_mono, samples_at,
  copied,
}
use softcut_py.Norns.Shape.{Layout}
use softcut_py.Norns.Shape.Regions.{buffer_copy_mono-HasLayout}
use softcut_py.Engine.Views.{view}
use softcut_py.Norns.Setters.{mirror}
use softcut_py.Demos.NornsApi.{reversed_copy, rev_start, rev_dur}
use softcut_py.Demos.NornsApi.Writes.{Writes, Ready, HasBuffer, written}

module _ (p : Platform) where
  open p use {F, S, narrow, lit, flt, fmul, round_int}

  -- These voices, on a stopped device.
  record HasVoices (vs : List (Voice p)) (h : Host p) : Type 0 where
    voices_same : h.engine.voices ≡ vs
    still_idle : h.engine.running ≡ false

  module _ {vs : List (Voice p)} where
    frames_of-HasVoices : (x : F) → Keeps (HasVoices vs) (frames_of p x)
    frames_of-HasVoices x = record { at = λ h k. k }

    array_of-HasVoices : (b : ℤ) → Keeps (HasVoices vs) (array_of p b)
    unfolding array_of or_raise
    array_of-HasVoices b = record { at = λ h k. k }

    apply-HasVoices :
        (a : ℕ) (start : ℤ) (src : List S) (preserve mix : F) (fade : ℤ)
        → Keeps (HasVoices vs) (apply p a start src preserve mix fade)
    unfolding apply apply_at ◌>>=◌ modify
    apply-HasVoices a start src preserve mix fade = record { at = λ h k. by_result h _ k }
      where
        by_result :
            (h : Host p) (r : Result (List S))
            → HasVoices vs h
            → HasVoices vs (resume r (λ xs. modify (store_array p a xs)) h).1
        by_result h (ok xs) k = record { voices_same = k.voices_same; still_idle = k.still_idle }
        by_result h (err e) k = k

    clear_count-HasVoices :
        (n : ℕ) (s0 : ℤ) (dur : F) → Keeps (HasVoices vs) (clear_count p n s0 dur)
    unfolding clear_count
    clear_count-HasVoices n s0 dur = Keeps-if _ _ _ (Keeps-pure _) (frames_of-HasVoices dur)

    copy-HasVoices :
        (src_ch dst_ch : ℤ) (start_src start_dst dur fade_time preserve : F) (backwards : Bool)
        → Keeps
            (HasVoices vs)
            (buffer_copy_mono p src_ch dst_ch start_src start_dst dur fade_time preserve backwards)
    unfolding buffer_copy_mono
    copy-HasVoices src_ch dst_ch start_src start_dst dur fade_time preserve backwards =
        search
          (
            Keeps-gets, Keeps-bind, frames_of-HasVoices, array_of-HasVoices, apply-HasVoices,
            clear_count-HasVoices,
          )
          depth 20

  -- The times of the copy are whole frames at the host's rate, those of the write within 64 bits.
  pub record Converts (l : Layout F) : Type 0 where
    pub zero_at : ℤ
    pub start_at : ℤ
    pub dur_at : ℤ
    pub zero_whole : round_int (fmul (lit (pos 0)) l.sample_rate) ≡ ok zero_at
    pub start_whole : round_int (fmul (rev_start p) l.sample_rate) ≡ ok start_at
    pub dur_whole : round_int (fmul (rev_dur p) l.sample_rate) ≡ ok dur_at
    pub zero_small : as_int64 zero_at ≡ ok zero_at
    pub start_small : as_int64 start_at ≡ ok start_at

  buffer_apply-ok :
      (dst : List S) (start fade : ℤ) (src : Option (List S)) (preserve mix : S)
      → as_int64 start ≡ ok start
      → as_int64 fade ≡ ok fade
      → buffer_apply p dst start src preserve mix fade (negsuc 0)
        ≡ ok (apply_to_buffer p dst start src (apply_count p src (negsuc 0)) preserve mix fade)
  unfolding buffer_apply
  buffer_apply-ok dst start fade src preserve mix hs hf = rw (hs, hf) refl

  apply-ok :
      (a : ℕ) (start fade : ℤ) (src : List S) (preserve mix : F) (h : Host p)
      → as_int64 start ≡ ok start
      → as_int64 fade ≡ ok fade
      → (apply p a start src preserve mix fade h).0 ≡ ok tt
  unfolding apply apply_at ◌>>=◌ lift modify
  apply-ok a start fade src preserve mix h hs hf =
      rw
        (buffer_apply-ok (samples_at p a h) start fade (some src) (narrow preserve) (narrow mix) hs
          hf)
        refl

  pub copy-returns :
      (l : Layout F)
      → HasBuffer p l (pos 1)
      → Converts l
      → (h : Host p) → Ready p l h
      → (reversed_copy p h).0 ≡ ok tt
  unfolding buffer_copy_mono array_of or_raise ◌>>=◌ gets pure frames clear_count
  copy-returns l held c h ready =
      let rate = ap (λ (m : Layout F). m.sample_rate) ready.laid in
      let places = ap (λ (m : Layout F). m.buf) ready.laid in
      let xs = samples_at p held.place h in
      let found = ap (λ (m : Dict ℤ ℕ). lookup (pos 1) m) places ∙ held.found in
      let zero_frames = ap (λ (r : F). round_int (fmul (lit (pos 0)) r)) rate ∙ c.zero_whole in
      let start_frames = ap (λ (r : F). round_int (fmul (rev_start p) r)) rate ∙ c.start_whole in
      let dur_frames = ap (λ (r : F). round_int (fmul (rev_dur p) r)) rate ∙ c.dur_whole in
      let writes = λ (k : ℤ).
        apply-ok held.place c.start_at c.zero_at (copied p xs c.zero_at k true) (lit (pos 0))
          (lit (pos 1)) h c.start_small c.zero_small in
      elim (Bool-cases (flt (rev_dur p) (lit (pos 0)))) [
        | inl e ↦
            rw (found, zero_frames, e, found, start_frames, zero_frames)
              (writes (pos (length xs) -ℤ c.zero_at))
        | inr e ↦
            rw (found, zero_frames, e, dur_frames, found, start_frames, zero_frames)
              (writes c.dur_at)
      ]

  -- A copy that returns writes no parameter.
  pub Writes-copy :
      {l : Layout F}
      → ((h : Host p) → Ready p l h → (reversed_copy p h).0 ≡ ok tt)
      → Writes p l [] (reversed_copy p)
  unfolding written view
  Writes-copy {l} copies = record {
    returns = copies;
    stays = λ h r. record {
      laid = ((buffer_copy_mono-HasLayout p _ _ _ _ _ _ _ _).at h (record { same = r.laid })).same;
      idle = (same h r).still_idle;
    };
    shows = λ h j a r. from_voices h (reversed_copy p h).1 j a (same h r).voices_same;
  }
    where
      same : (h : Host p) → Ready p l h → HasVoices h.engine.voices (reversed_copy p h).1
      same h r =
          (copy-HasVoices _ _ _ _ _ _ _ _).at h (record { voices_same = refl; still_idle = r.idle })

      from_voices :
          (h g : Host p) (j : ℕ) (a : String)
          → g.engine.voices ≡ h.engine.voices
          → mirror p j a g.engine ≡ mirror p j a h.engine
      from_voices h g j a e = ap (λ vs. Option.map (λ (v : Voice p). v.params a) (get_elem? vs j)) e
