-- ===== src/Engine/OscQueue.antt =====
-- Changes that come from the thread of the native OSC receiver, in src/softcut/_core.cpp: they wait in
-- a queue of their own while the engine runs.
use softcut_py.Base.{
  ℕ, ◌+◌, ◌-◌, String, Bool, true, false, [], ◌∷◌, ◌++◌, length, ltb, ◌≡◌, refl, if◌then◌else◌,
}
use softcut_py.Platform.{Platform, Command, set_param, set_flag, set_rec_flag, set_rec_once_flag}
use softcut_py.Voice.{perform, with_param, with_flag}
use softcut_py.Engine.{
  Engine, on_voice, queue_room, dsp_apply, flag_apply, store_param, store_flag, set_rec,
  set_rec_once, drain, drain_commands,
}

module _ (p : Platform) where
  open p use {S}

  -- `osc_apply`
  unfoldable pub osc_apply : ℕ → Command S → Engine p → Bool × Engine p
  unfolding perform
  osc_apply i c e =
      if e.running
      then if ltb (length e.osc_queue) queue_room
        then (true, record e { osc_queue = e.osc_queue ++ ((i, c) ∷ []) })
        else (false, on_voice p i (λ v. record v { dropped = v.dropped + 1 }) e)
      else (true, on_voice p i (perform p c) e)

  -- `flag_apply(fn, true)`
  unfoldable pub osc_flag_apply : ℕ → Command S → Engine p → Engine p
  unfolding osc_apply
  osc_flag_apply i c e =
      let e1 = on_voice p i (λ v. record v { pending = v.pending + 1 }) e in
      let e2 = (osc_apply i c e1).1 in
      if (osc_apply i c e1).0
      then e2
      else on_voice p i (λ v. record v { pending = v.pending - 1 }) e2

  -- The mirror first, then the setter of the DSP voice.
  unfoldable pub osc_store_param : ℕ → String → S → Engine p → Engine p
  osc_store_param i k x e = (osc_apply i (set_param k x) (on_voice p i (with_param p k x) e)).1

  unfoldable pub osc_store_flag : ℕ → String → Bool → Engine p → Engine p
  osc_store_flag i k x e = (osc_apply i (set_flag k x) (on_voice p i (with_flag p k x) e)).1

  -- `set_rec(x, true)` and `set_rec_once(x, true)`
  unfoldable pub osc_set_rec : ℕ → Bool → Engine p → Engine p
  osc_set_rec i x e =
      let mirrored = on_voice p i (with_flag p "rec" x) e in
      osc_flag_apply i (set_rec_flag x)
        (if x then mirrored else on_voice p i (with_flag p "rec_once" false) mirrored)

  unfoldable pub osc_set_rec_once : ℕ → Bool → Engine p → Engine p
  osc_set_rec_once i x e =
      let mirrored = on_voice p i (with_flag p "rec_once" x) e in
      osc_flag_apply i (set_rec_once_flag x)
        (if x then on_voice p i (with_flag p "rec" true) mirrored else mirrored)

  -- Nothing waits for the audio thread.
  pub record IsQuiet (e : Engine p) : Type 0 where
    pub no_change : e.queue ≡ []
    pub no_osc_change : e.osc_queue ≡ []

  pub osc_apply-dsp_apply :
      (i : ℕ) (c : Command S) (e : Engine p)
      → IsQuiet e
      → ((osc_apply i c e).0 ≡ true)
        × ((dsp_apply p i c e).0 ≡ true)
        × (drain_commands p (osc_apply i c e).1 ≡ drain_commands p (dsp_apply p i c e).1)
  unfolding osc_apply dsp_apply drain_commands drain
  osc_apply-dsp_apply i c e quiet = by_running e.running refl
    where
      by_running :
          (b : Bool)
          → e.running ≡ b
          → ((osc_apply i c e).0 ≡ true)
            × ((dsp_apply p i c e).0 ≡ true)
            × (drain_commands p (osc_apply i c e).1 ≡ drain_commands p (dsp_apply p i c e).1)
      by_running true run = rw (run, quiet.no_change, quiet.no_osc_change) (refl, refl, refl)
      by_running false run = rw run (refl, refl, refl)

  osc_flag_apply-flag_apply :
      (i : ℕ) (c : Command S) (e : Engine p)
      → IsQuiet e
      → drain_commands p (osc_flag_apply i c e) ≡ drain_commands p (flag_apply p i c e)
  unfolding osc_flag_apply flag_apply
  osc_flag_apply-flag_apply i c e quiet =
      let e1 = on_voice p i (λ v. record v { pending = v.pending + 1 }) e in
      let quiet1 : IsQuiet e1 = record {
        no_change = quiet.no_change;
        no_osc_change = quiet.no_osc_change;
      } in
      let (done, done_too, same) = osc_apply-dsp_apply i c e1 quiet1 in rw (done, done_too) same

  -- Where nothing waits for the audio thread, a change from the native receiver and the same change
  -- from Python differ only in the queue that they wait in.

  pub osc_store_param-store_param :
      (i : ℕ) (k : String) (x : S) (e : Engine p)
      → IsQuiet e
      → drain_commands p (osc_store_param i k x e) ≡ drain_commands p (store_param p i k x e)
  unfolding osc_store_param store_param
  osc_store_param-store_param i k x e quiet =
      (osc_apply-dsp_apply i (set_param k x) (on_voice p i (with_param p k x) e)
        (record { no_change = quiet.no_change; no_osc_change = quiet.no_osc_change })).2

  pub osc_store_flag-store_flag :
      (i : ℕ) (k : String) (x : Bool) (e : Engine p)
      → IsQuiet e
      → drain_commands p (osc_store_flag i k x e) ≡ drain_commands p (store_flag p i k x e)
  unfolding osc_store_flag store_flag
  osc_store_flag-store_flag i k x e quiet =
      (osc_apply-dsp_apply i (set_flag k x) (on_voice p i (with_flag p k x) e)
        (record { no_change = quiet.no_change; no_osc_change = quiet.no_osc_change })).2

  pub osc_set_rec-set_rec :
      (i : ℕ) (x : Bool) (e : Engine p)
      → IsQuiet e
      → drain_commands p (osc_set_rec i x e) ≡ drain_commands p (set_rec p i x e)
  unfolding osc_set_rec set_rec
  osc_set_rec-set_rec i true e quiet =
      osc_flag_apply-flag_apply i (set_rec_flag true) (on_voice p i (with_flag p "rec" true) e)
        (record { no_change = quiet.no_change; no_osc_change = quiet.no_osc_change })
  osc_set_rec-set_rec i false e quiet =
      osc_flag_apply-flag_apply i (set_rec_flag false)
        (on_voice p i (with_flag p "rec_once" false) (on_voice p i (with_flag p "rec" false) e))
        (record { no_change = quiet.no_change; no_osc_change = quiet.no_osc_change })

  pub osc_set_rec_once-set_rec_once :
      (i : ℕ) (x : Bool) (e : Engine p)
      → IsQuiet e
      → drain_commands p (osc_set_rec_once i x e) ≡ drain_commands p (set_rec_once p i x e)
  unfolding osc_set_rec_once set_rec_once
  osc_set_rec_once-set_rec_once i true e quiet =
      osc_flag_apply-flag_apply i (set_rec_once_flag true)
        (on_voice p i (with_flag p "rec" true) (on_voice p i (with_flag p "rec_once" true) e))
        (record { no_change = quiet.no_change; no_osc_change = quiet.no_osc_change })
  osc_set_rec_once-set_rec_once i false e quiet =
      osc_flag_apply-flag_apply i (set_rec_once_flag false)
        (on_voice p i (with_flag p "rec_once" false) e)
        (record { no_change = quiet.no_change; no_osc_change = quiet.no_osc_change })
