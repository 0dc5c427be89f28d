-- ===== src/Engine/Pending/Changes.antt =====
-- The changes that reach the voices of a running engine, of src/softcut/_core.cpp: from Python, from the native OSC
-- receiver, and from the audio thread, in any order.
use softcut_py.Base.{
  ℕ, zero, suc, [], replicate, ◌+◌, ◌<◌, ◌≡◌, refl, String, Bool, true, false, Bool-cases, inl, inr,
  Option, none, some, if◌then◌else◌, List, get_elem?, length, ◌==◌, string_eq,
}
use softcut_py.Base.Int.{ℤ, pos_part}
use softcut_py.Base.Exec.{Result, ok, err, value_error, ◌>>=◌}
use softcut_py.Base.Exec.Gives.{Gives, Gives-ok, Gives-guard, Gives-and_then}
use softcut_py.Engine.Methods.{new_engine, set_feedback, fb_place}
use softcut_py.Engine.Attributes.{set_fade, fade_shapes, store_sample_rate}
use softcut_py.Platform.{
  Platform, set_param, set_flag, reset_voice, set_sample_rate, set_fade_shape,
}
use softcut_py.Voice.{Voice, new_voice, perform, with_param, with_flag, reset_params, contains}
use softcut_py.Engine.{
  Engine, drain_commands, store_param, store_flag, set_rec, set_rec_once, cut_to, reset, start,
  stop, set_voice_buffer, Value, num, flag, text, arr, region, on_voice,
}
use softcut_py.Engine.Render.{process_core, process}
use softcut_py.Engine.OscQueue.{osc_store_param, osc_store_flag, osc_set_rec, osc_set_rec_once}
use softcut_py.Engine.Pending.Keeps.{
  swap, swap-IsCounted, osc_apply-IsCounted, set_rec-IsCounted, set_rec_once-IsCounted,
  osc_set_rec-swap, osc_set_rec_once-swap, start-IsCounted, stop-IsCounted, process_core-IsCounted,
  set_voice_buffer-IsCounted,
}
use softcut_py.Engine.Pending.{IsCounted, waiting, pending_of, on_voice-IsCounted}
use softcut_py.Engine.Pending.Apply.{
  dsp_apply-IsCounted, flag_apply-IsCounted, drain_commands-IsCounted,
}

module _ (p : Platform) where
  open p use {F, S, Dsp, narrow}

  -- One change of the engine.
  pub data Change : Engine p → Engine p → Type 0 where
    param_stored : (i : ℕ) (k : String) (x : S) (e : Engine p) → Change e (store_param p i k x e)
    flag_stored : (i : ℕ) (k : String) (x : Bool) (e : Engine p) → Change e (store_flag p i k x e)
    rec_set : (i : ℕ) (x : Bool) (e : Engine p) → Change e (set_rec p i x e)
    rec_once_set : (i : ℕ) (x : Bool) (e : Engine p) → Change e (set_rec_once p i x e)
    cut : (i : ℕ) (sec : F) (e : Engine p) → Change e (cut_to p i sec e)
    was_reset : (i : ℕ) (e : Engine p) → Change e (reset p i e)
    osc_param_stored :
        (i : ℕ) (k : String) (x : S) (e : Engine p) → Change e (osc_store_param p i k x e)
    osc_flag_stored :
        (i : ℕ) (k : String) (x : Bool) (e : Engine p) → Change e (osc_store_flag p i k x e)
    osc_rec_set : (i : ℕ) (x : Bool) (e : Engine p) → Change e (osc_set_rec p i x e)
    osc_rec_once_set : (i : ℕ) (x : Bool) (e : Engine p) → Change e (osc_set_rec_once p i x e)
    started : (opened : Bool) (e : Engine p) → Change e (start p opened e).1
    stopped : (e : Engine p) → Change e (stop p e)
    array_set : (i a : ℕ) (e : Engine p) → Change e (set_voice_buffer p i a e).1
    played :
        (ext_in : List S) (frames : ℕ) (e : Engine p) → Change e (process_core p ext_in frames e).1
    mix_stored :
        (i : ℕ) (k : String) (x : S) (e : Engine p) → Change e (on_voice p i (with_param p k x) e)
    fade_set : (i : ℕ) (k : String) (v : Value p) (e : Engine p) → Change e (set_fade p i k v e).1
    rate_set : (i : ℕ) (x : S) (e : Engine p) → Change e (store_sample_rate p i x e)
    feedback_set :
        (src dst : ℤ) (amount : F) (e : Engine p) → Change e (set_feedback p src dst amount e).1
    voice_processed :
        (i : ℕ) (input : List S) (out : Option (List S)) (e : Engine p)
        → Change e (process p i input out e).1
    drained : (e : Engine p) → Change e (drain_commands p e)

  set_fade-IsCounted :
      (i : ℕ) (k : String) (v : Value p) (e : Engine p)
      → IsCounted p e
      → IsCounted p (set_fade p i k v e).1
  unfolding set_fade
  set_fade-IsCounted i k (text name) e before = elim (Bool-cases (contains fade_shapes name)) [
    | inl e1 ↦ rw (e1, set_fade) (dsp_apply-IsCounted p i (set_fade_shape k name) e refl before)
    | inr e1 ↦ rw (e1, set_fade) before
  ]
  set_fade-IsCounted i k (num x) e before = before
  set_fade-IsCounted i k (flag x) e before = before
  set_fade-IsCounted i k (arr a) e before = before
  set_fade-IsCounted i k (region a b) e before = before

  process-IsCounted :
      (i : ℕ) (input : List S) (out : Option (List S)) (e : Engine p)
      → IsCounted p e
      → IsCounted p (process p i input out e).1
  unfolding process
  process-IsCounted i input out e before = by_voice (get_elem? e.voices i) refl
    where
      by_room :
          (b : Bool) (o : List S) (arrays : List (List S)) (d : Dsp)
          → let refused : Result (List S) × Engine p = (err value_error, e) in
            let done : Result (List S) × Engine p =
              (ok o, on_voice p i (λ v. record v { dsp = d }) (record e { arrays = arrays })) in
            let r = if b then refused else done in IsCounted p r.1
      by_room true o arrays d = before
      by_room false o arrays d =
          on_voice-IsCounted p i (λ v. record v { dsp = d }) (record e { arrays = arrays })
            (λ v. refl) (record { counted = before.counted })

      by_voice :
          (o : Option (Voice p))
          → get_elem? e.voices i ≡ o
          → IsCounted p (process p i input out e).1
      by_voice none found = rw (found, process) before
      by_voice (some v) found = rw (found, process) (by_room _ _ _ _)

  set_feedback-IsCounted :
      (src dst : ℤ) (amount : F) (e : Engine p)
      → IsCounted p e
      → IsCounted p (set_feedback p src dst amount e).1
  unfolding set_feedback ◌>>=◌
  set_feedback-IsCounted src dst amount e before = by_place (fb_place p src dst e) refl
    where
      by_place :
          (r : Result ℕ)
          → fb_place p src dst e ≡ r
          → IsCounted p (set_feedback p src dst amount e).1
      by_place (ok k) found = rw found (record { counted = before.counted })
      by_place (err x) found = rw found before

  change-IsCounted : {e e' : Engine p} → Change e e' → IsCounted p e → IsCounted p e'
  unfolding store_sample_rate store_param store_flag cut_to reset osc_store_param osc_store_flag
  change-IsCounted (param_stored i k x e) before =
      dsp_apply-IsCounted p i (set_param k x) _ refl
        (on_voice-IsCounted p i (with_param p k x) e (λ v. refl) before)
  change-IsCounted (flag_stored i k x e) before =
      dsp_apply-IsCounted p i (set_flag k x) _ refl
        (on_voice-IsCounted p i (with_flag p k x) e (λ v. refl) before)
  change-IsCounted (cut i sec e) before = dsp_apply-IsCounted p i _ e refl before
  change-IsCounted (osc_param_stored i k x e) before =
      osc_apply-IsCounted p i (set_param k x) _ refl
        (on_voice-IsCounted p i (with_param p k x) e (λ v. refl) before)
  change-IsCounted (osc_flag_stored i k x e) before =
      osc_apply-IsCounted p i (set_flag k x) _ refl
        (on_voice-IsCounted p i (with_flag p k x) e (λ v. refl) before)
  change-IsCounted (rec_set i x e) before = set_rec-IsCounted p i x e before
  change-IsCounted (rec_once_set i x e) before = set_rec_once-IsCounted p i x e before
  change-IsCounted (osc_rec_set i x e) before =
      rw (osc_set_rec-swap p i x e)
        (swap-IsCounted p _ (set_rec-IsCounted p i x (swap p e) (swap-IsCounted p e before)))
  change-IsCounted (osc_rec_once_set i x e) before =
      rw (osc_set_rec_once-swap p i x e)
        (swap-IsCounted p _ (set_rec_once-IsCounted p i x (swap p e) (swap-IsCounted p e before)))
  change-IsCounted (was_reset i e) before =
      on_voice-IsCounted p i (reset_params p) _ (λ v. refl)
        (flag_apply-IsCounted p i reset_voice e refl before)
  change-IsCounted (started opened e) before = start-IsCounted p opened e before
  change-IsCounted (stopped e) before = stop-IsCounted p e before
  change-IsCounted (drained e) before = drain_commands-IsCounted p e before
  change-IsCounted (mix_stored i k x e) before =
      on_voice-IsCounted p i (with_param p k x) e (λ v. refl) before
  change-IsCounted (fade_set i k v e) before = set_fade-IsCounted i k v e before
  change-IsCounted (rate_set i x e) before =
      dsp_apply-IsCounted p i (set_sample_rate x) _ refl
        (on_voice-IsCounted p i (λ v. record v { sample_rate = x }) e (λ v. refl) before)
  change-IsCounted (feedback_set src dst amount e) before =
      set_feedback-IsCounted src dst amount e before
  change-IsCounted (voice_processed i input out e) before = process-IsCounted i input out e before
  change-IsCounted (array_set i a e) before = set_voice_buffer-IsCounted p i a e before
  change-IsCounted (played ext_in frames e) before = process_core-IsCounted p ext_in frames e before

  -- Any number of changes, one after the other.
  pub data Changes : Engine p → Engine p → Type 0 where
    unchanged : (e : Engine p) → Changes e e
    one_more : {e f g : Engine p} → Changes e f → Change f g → Changes e g

  pending_of-replicate :
      (n j : ℕ) (v : Voice p) → v.pending ≡ 0 → pending_of p (replicate n v) j ≡ 0
  pending_of-replicate zero j v h = refl
  pending_of-replicate (suc n) zero v h = h
  pending_of-replicate (suc n) (suc j) v h = pending_of-replicate n j v h

  replicate-IsCounted :
      (n : ℕ) (v : Voice p) (e : Engine p)
      → v.pending ≡ 0
      → e.voices ≡ replicate n v
      → e.queue ≡ []
      → e.osc_queue ≡ []
      → IsCounted p e
  unfolding waiting
  replicate-IsCounted n v e none_yet same idle quiet = record {
    counted = λ j inside. rw (same, idle, quiet) (pending_of-replicate n j v none_yet);
  }

  new_engine-IsCounted :
      (voices : ℤ) (sample_rate : F) (mode : String) (block_size out_channels : ℤ) (quirks : String)
      → Gives (IsCounted p) (new_engine p voices sample_rate mode block_size out_channels quirks)
  unfolding new_engine perform new_voice
  new_engine-IsCounted voices sample_rate mode block_size out_channels quirks =
      let sr = narrow sample_rate in
      let voice = perform p (set_sample_rate sr) (new_voice p sr (quirks == "fixed")) in
      let counted : (e : Engine p)
          → e.voices ≡ replicate (pos_part voices) voice
          → e.queue ≡ []
          → e.osc_queue ≡ []
          → IsCounted p e =
        λ e. replicate-IsCounted (pos_part voices) voice e refl in
      search (Gives-ok, Gives-guard, Gives-and_then, counted) depth 20

  -- After any sequence of the setters of the voices (loop points, flags, mixer and fades), `cut_to`, `reset`,
  -- the changes of the native receiver, `set_feedback`, array assignments, `start`, `stop`, drains, blocks and
  -- `process`, each call taken as one step, on an engine that was made, each voice's `flag_changes_pending_` is the number of its
  -- changes of `rec` and `rec_once` (a reset is one) that wait in the two queues.
  pub pending-waiting :
      (voices : ℤ) (sample_rate : F) (mode : String) (block_size out_channels : ℤ) (quirks : String)
      {e e' : Engine p}
      → new_engine p voices sample_rate mode block_size out_channels quirks ≡ ok e
      → Changes e e'
      → (j : ℕ) → j < length e'.voices
      → pending_of p e'.voices j ≡ waiting p j e'.queue + waiting p j e'.osc_queue
  pending-waiting voices sample_rate mode block_size out_channels quirks made cs j inside =
      let start =
        (new_engine-IsCounted voices sample_rate mode block_size out_channels quirks).holds _
          made in
      (all start cs).counted j inside
    where
      all : {e e' : Engine p} → IsCounted p e → Changes e e' → IsCounted p e'
      all before (unchanged e) = before
      all before (one_more cs c) = change-IsCounted c (all before cs)
