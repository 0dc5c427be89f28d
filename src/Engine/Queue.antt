-- ===== src/Engine/Queue.antt =====
-- The command queue: changes to a running engine take effect in order, as if made at once.
use softcut_py.Base.{
  ℕ, ◌+◌, ◌≤◌, ◌<◌, ◌≡◌, refl, ◌∙◌, ap, true, false, List, [], ◌∷◌, ◌++◌, arith, length, sym,
  length-append,
}
use mathlib.Core.List.{append-nil, append_assoc}
use softcut_py.Platform.{Platform, Command}
use softcut_py.Voice.{Voice, perform}
use softcut_py.Engine.{
  Engine, update_at, on_voice, queue_room, dsp_apply, drain, drain_commands, stop,
}

module _ (p : Platform) where
  open p use {S}

  -- A burst of changes, each handed to `dsp_apply`.
  unfoldable pub apply_all : List (ℕ × Command S) → Engine p → Engine p
  unfolding dsp_apply
  apply_all [] e = e
  apply_all ((i, c) ∷ cs) e = apply_all cs (dsp_apply p i c e).1

  pub drain-append :
      (q r : List (ℕ × Command S)) (vs : List (Voice p))
      → drain p (q ++ r) vs ≡ drain p r (drain p q vs)
  unfolding drain
  drain-append [] r vs = refl
  drain-append ((i, c) ∷ q) r vs = drain-append q r (update_at i (perform p c) vs)

  pub dsp_apply-running :
      (i : ℕ) (c : Command S) (e : Engine p)
      → e.running ≡ true
      → length e.queue < queue_room
      → dsp_apply p i c e ≡ (true, record e { queue = e.queue ++ ((i, c) ∷ []) })
  unfolding dsp_apply
  dsp_apply-running i c e r room = ground arith

  pub dsp_apply-stopped :
      (i : ℕ) (c : Command S) (e : Engine p)
      → e.running ≡ false
      → dsp_apply p i c e ≡ (true, on_voice p i (perform p c) e)
  unfolding dsp_apply
  dsp_apply-stopped i c e r = ground arith

  apply_all-running :
      (cs : List (ℕ × Command S)) (e : Engine p)
      → e.running ≡ true
      → length e.queue + length cs ≤ queue_room
      → apply_all cs e ≡ record e { queue = e.queue ++ cs }
  unfolding apply_all
  apply_all-running [] e r room = simp append-nil
  apply_all-running ((i, c) ∷ cs) e r room =
      let longer = length-append e.queue ((i, c) ∷ []) in
      rw (dsp_apply-running i c e r (omega arith)) (
        apply_all-running cs (record e { queue = e.queue ++ ((i, c) ∷ []) }) r (omega arith)
        ∙ simp append_assoc)

  apply_all-stopped :
      (cs : List (ℕ × Command S)) (e : Engine p)
      → e.running ≡ false
      → apply_all cs e ≡ record e { voices = drain p cs e.voices }
  unfolding apply_all drain
  apply_all-stopped [] e r = refl
  apply_all-stopped ((i, c) ∷ cs) e r =
      rw (dsp_apply-stopped i c e r) (apply_all-stopped cs (on_voice p i (perform p c) e) r)

  -- Changes made to a running engine that then stops leave the engine that stopping first and
  -- then making them leaves, if the queue has room for them all and no change of the native OSC
  -- receiver waits in its own queue.
  pub stop-apply_all :
      (cs : List (ℕ × Command S)) (e : Engine p)
      → e.running ≡ true
      → e.osc_queue ≡ []
      → length e.queue + length cs ≤ queue_room
      → stop p (apply_all cs e) ≡ apply_all cs (stop p e)
  unfolding stop drain_commands drain
  stop-apply_all cs e r quiet room =
      rw (apply_all-running cs e r room, r, quiet)
        (ap
            (λ (vs : List (Voice p)). record e {
              voices = vs;
              queue = [];
              osc_queue = [];
              running = false;
            })
            (drain-append e.queue cs e.voices)
          ∙ sym (
              apply_all-stopped cs
                (record e {
                  voices = drain p e.queue e.voices;
                  queue = [];
                  osc_queue = [];
                  running = false;
                })
                refl))
