-- ===== src/Engine/Pending/Keeps.antt =====
-- Each change of an engine of src/softcut/_core.cpp keeps the counts of the flag changes that wait.
use softcut_py.Base.{
  ℕ, ◌+◌, ◌-◌, ◌≡◌, refl, ◌∙◌, ap, arith, Bool, true, false, List, [], ◌∷◌, length, ◌==◌, nat_eq,
  not, get_or, get_elem?, Option, none, some, ltb, if◌then◌else◌,
}
use softcut_py.Base.Exec.{Result, ok, err, runtime_error, value_error}
use softcut_py.Bits.{is_power_of_two}
use softcut_py.Platform.{Platform, Command, set_rec_flag, set_rec_once_flag, set_buffer}
use softcut_py.Voice.{Voice, perform, is_flag_change, with_flag}
use softcut_py.Engine.{
  Engine, on_voice, queue_room, dsp_apply, flag_apply, drain_commands, set_rec, set_rec_once, start,
  stop, assign_array, set_voice_buffer, frames_of,
}
use softcut_py.Engine.Render.{process_core, mixed, put_dsps}
use softcut_py.Engine.Render.Sized.{length-put_dsps}
use softcut_py.Engine.OscQueue.{osc_apply, osc_flag_apply, osc_set_rec, osc_set_rec_once}
use softcut_py.Engine.Pending.{IsCounted, pendings, on_voice-IsCounted}
use softcut_py.Engine.Pending.Apply.{
  dsp_apply-IsCounted, flag_apply-IsCounted, drain_commands-IsCounted,
}

module _ (p : Platform) where
  open p use {F, S}

  -- The engine with its two queues exchanged.
  abbrev pub swap : Engine p → Engine p
  swap e = record e { queue = e.osc_queue; osc_queue = e.queue }

  pub swap-IsCounted : (e : Engine p) → IsCounted p e → IsCounted p (swap e)
  swap-IsCounted e before = record {
    counted = λ j inside. let was = before.counted j inside in omega (arith, was);
  }

  osc_apply-swap :
      (i : ℕ) (c : Command S) (e : Engine p)
      → osc_apply p i c e ≡ ((dsp_apply p i c (swap e)).0, swap (dsp_apply p i c (swap e)).1)
  unfolding osc_apply dsp_apply
  osc_apply-swap i c e = by_test e.running (ltb (length e.osc_queue) queue_room) refl refl
    where
      by_test :
          (r b : Bool)
          → e.running ≡ r
          → ltb (length e.osc_queue) queue_room ≡ b
          → osc_apply p i c e ≡ ((dsp_apply p i c (swap e)).0, swap (dsp_apply p i c (swap e)).1)
      by_test true true live room = rw (live, room) refl
      by_test true false live room = rw (live, room) refl
      by_test false b live room = rw live refl

  pub osc_apply-IsCounted :
      (i : ℕ) (c : Command S) (e : Engine p)
      → is_flag_change p c ≡ false
      → IsCounted p e
      → IsCounted p (osc_apply p i c e).1
  osc_apply-IsCounted i c e plain before = rw (osc_apply-swap i c e) (
      swap-IsCounted (dsp_apply p i c (swap e)).1
        (dsp_apply-IsCounted p i c (swap e) plain (swap-IsCounted e before)))

  osc_flag_apply-swap :
      (i : ℕ) (c : Command S) (e : Engine p)
      → osc_flag_apply p i c e ≡ swap (flag_apply p i c (swap e))
  unfolding osc_flag_apply flag_apply
  osc_flag_apply-swap i c e =
      let e1 = on_voice p i (λ v. record v { pending = v.pending + 1 }) e in
      rw (osc_apply-swap i c e1) (by_result (dsp_apply p i c (swap e1)).0 _)
    where
      by_result :
          (b : Bool) (e2 : Engine p)
          → (if b
              then swap e2
              else on_voice p i (λ v. record v { pending = v.pending - 1 }) (swap e2))
            ≡ swap (if b then e2 else on_voice p i (λ v. record v { pending = v.pending - 1 }) e2)
      by_result true e2 = refl
      by_result false e2 = refl

  pub osc_flag_apply-IsCounted :
      (i : ℕ) (c : Command S) (e : Engine p)
      → is_flag_change p c ≡ true
      → IsCounted p e
      → IsCounted p (osc_flag_apply p i c e)
  osc_flag_apply-IsCounted i c e flag before = rw (osc_flag_apply-swap i c e) (
      swap-IsCounted (flag_apply p i c (swap e))
        (flag_apply-IsCounted p i c (swap e) flag (swap-IsCounted e before)))

  pub set_rec-IsCounted :
      (i : ℕ) (x : Bool) (e : Engine p) → IsCounted p e → IsCounted p (set_rec p i x e)
  unfolding set_rec
  set_rec-IsCounted i true e before =
      flag_apply-IsCounted p i (set_rec_flag true) _ refl
        (on_voice-IsCounted p i (with_flag p "rec" true) e (λ v. refl) before)
  set_rec-IsCounted i false e before = flag_apply-IsCounted p i (set_rec_flag false) _ refl (
      on_voice-IsCounted p i (with_flag p "rec_once" false) _ (λ v. refl)
        (on_voice-IsCounted p i (with_flag p "rec" false) e (λ v. refl) before))

  pub set_rec_once-IsCounted :
      (i : ℕ) (x : Bool) (e : Engine p) → IsCounted p e → IsCounted p (set_rec_once p i x e)
  unfolding set_rec_once
  set_rec_once-IsCounted i false e before =
      flag_apply-IsCounted p i (set_rec_once_flag false) _ refl
        (on_voice-IsCounted p i (with_flag p "rec_once" false) e (λ v. refl) before)
  set_rec_once-IsCounted i true e before =
      flag_apply-IsCounted p i (set_rec_once_flag true) _ refl (
        on_voice-IsCounted p i (with_flag p "rec" true) _ (λ v. refl)
          (on_voice-IsCounted p i (with_flag p "rec_once" true) e (λ v. refl) before))

  -- The native setters are the ordinary ones on exchanged queues.

  pub osc_set_rec-swap :
      (i : ℕ) (x : Bool) (e : Engine p) → osc_set_rec p i x e ≡ swap (set_rec p i x (swap e))
  unfolding set_rec osc_set_rec
  osc_set_rec-swap i true e = osc_flag_apply-swap i (set_rec_flag true) _
  osc_set_rec-swap i false e = osc_flag_apply-swap i (set_rec_flag false) _

  pub osc_set_rec_once-swap :
      (i : ℕ) (x : Bool) (e : Engine p)
      → osc_set_rec_once p i x e ≡ swap (set_rec_once p i x (swap e))
  unfolding set_rec_once osc_set_rec_once
  osc_set_rec_once-swap i true e = osc_flag_apply-swap i (set_rec_once_flag true) _
  osc_set_rec_once-swap i false e = osc_flag_apply-swap i (set_rec_once_flag false) _

  pub start-IsCounted :
      (opened : Bool) (e : Engine p) → IsCounted p e → IsCounted p (start p opened e).1
  unfolding start
  start-IsCounted opened e before = by_test e.running opened refl
    where
      by_test : (r o : Bool) → e.running ≡ r → IsCounted p (start p o e).1
      by_test true o live = rw live (record { counted = before.counted })
      by_test false true off = rw off (record { counted = before.counted })
      by_test false false off = rw off (record { counted = before.counted })

  pub stop-IsCounted : (e : Engine p) → IsCounted p e → IsCounted p (stop p e)
  unfolding stop
  stop-IsCounted e before = by_test e.running
    where
      by_test :
          (r : Bool)
          → IsCounted p (if r then drain_commands p (record e { running = false }) else e)
      by_test true = drain_commands-IsCounted p _ (record { counted = before.counted })
      by_test false = before

  pendings-put_dsps :
      (voices : List (Voice p)) (dsps : List p.Dsp)
      → pendings p (put_dsps p voices dsps) ≡ pendings p voices
  pendings-put_dsps [] dsps = refl
  pendings-put_dsps (v ∷ voices) [] = refl
  pendings-put_dsps (v ∷ voices) (d ∷ dsps) =
      ap (λ ns. v.pending ∷ ns) (pendings-put_dsps voices dsps)

  pub process_core-IsCounted :
      (ext_in : List S) (frames : ℕ) (e : Engine p)
      → IsCounted p e
      → IsCounted p (process_core p ext_in frames e).1
  unfolding process_core
  process_core-IsCounted ext_in frames e before =
      let ds = (mixed p ext_in frames e).dsps in
      record {
        counted = λ j inside.
            let size = length-put_dsps p e.voices ds in
            ap (λ ns. get_or ns j 0) (pendings-put_dsps e.voices ds)
            ∙ before.counted j (omega arith);
      }

  if-IsCounted :
      (b : Bool) (x y : Result (Unit {0}) × Engine p)
      → IsCounted p x.1
      → IsCounted p y.1
      → IsCounted p (if b then x else y).1
  if-IsCounted true x y h k = h
  if-IsCounted false x y h k = k

  assign_array-IsCounted :
      (i a n : ℕ) (e : Engine p) → IsCounted p e → IsCounted p (assign_array p i a n e).1
  unfolding assign_array perform
  assign_array-IsCounted i a n e before =
      let sent = dsp_apply-IsCounted p i (set_buffer a) e refl before in
      let kept = on_voice-IsCounted p i (λ v. record v { buffer = some a }) _ (λ v. refl) sent in
      let at_once =
        on_voice-IsCounted p i
          (λ v. record (perform p (set_buffer a) v) { buffer = some a; frames = n }) e (λ v. refl)
          before in
      let e' = (dsp_apply p i (set_buffer a) e).1 in
      let taken : Result (Unit {0}) × Engine p =
        (ok tt, on_voice p i (λ v. record v { buffer = some a }) e') in
      let replaced : Result (Unit {0}) × Engine p = (
        ok tt,
        on_voice p i (λ v. record (perform p (set_buffer a) v) { buffer = some a; frames = n }) e,
      ) in
      let done = (dsp_apply p i (set_buffer a) e).0 in
      let last = if done then taken else (err runtime_error, e') in
      let same = not (n == frames_of p i e) in
      let live = if same then (err runtime_error, e) else last in
      let free = if not e.running then replaced else live in
      if-IsCounted (not (is_power_of_two n)) (err value_error, e) free before
        (if-IsCounted (not e.running) replaced live at_once (
          if-IsCounted same (err runtime_error, e) last before
            (if-IsCounted done taken (err runtime_error, e') kept sent)))

  pub set_voice_buffer-IsCounted :
      (i a : ℕ) (e : Engine p) → IsCounted p e → IsCounted p (set_voice_buffer p i a e).1
  unfolding set_voice_buffer
  set_voice_buffer-IsCounted i a e before = by_array (get_elem? e.arrays a) refl
    where
      by_array :
          (o : Option (List S))
          → get_elem? e.arrays a ≡ o
          → IsCounted p (set_voice_buffer p i a e).1
      by_array none found = rw (found, set_voice_buffer) (record { counted = before.counted })
      by_array (some samples) found =
          rw (found, set_voice_buffer) (assign_array-IsCounted i a (length samples) e before)
