-- ===== src/Osc/Asked.antt =====
-- A server that was asked to quit stays so, whatever messages follow (src/softcut/osc.py).
use softcut_py.Base.{
  ℕ, true, some, ◌≡◌, refl, String, List, get_elem?, Option-cases, inl, inr, string_eq,
}
use softcut_py.Base.Int.{ℤ}
use softcut_py.Base.Dict.{lookup}
use softcut_py.Base.Exec.{Exec, modify}
use softcut_py.Base.Exec.Keeps.{Keeps, Keeps-pure, Keeps-lift, Keeps-bind, Keeps-modify}
use softcut_py.Platform.{Platform}
use softcut_py.Norns.{Host}
use softcut_py.Osc

module _ (p : Platform) where
  open p use {F}

  -- `_quit` is set.
  record Asked (s : Osc.Server p) : Type 0 where
    pub asked : s.quit_requested ≡ true

  on_host-Asked : (m : Exec (Host p) Unit) → Keeps Asked (Osc.on_host p m)
  on_host-Asked m = record { at = λ s h. record { asked = h.asked } }

  arg-Asked : (args : List (Osc.Arg p)) (k : ℕ) → Keeps Asked (Osc.arg p args k)
  arg-Asked args k = elim (Option-cases (get_elem? args k)) [
    | inl e ↦ record { at = λ s h. rw (e, Osc.arg) h }
    | inr (a, e) ↦ record { at = λ s h. rw (e, Osc.arg) h }
  ]

  float_or-Asked : (args : List (Osc.Arg p)) (k : ℕ) (d : F) → Keeps Asked (Osc.float_or p args k d)
  float_or-Asked args k d = elim (Option-cases (get_elem? args k)) [
    | inl e ↦ record { at = λ s h. rw (e, Osc.float_or) h }
    | inr (a, e) ↦ record { at = λ s h. rw (e, Osc.float_or) h }
  ]

  int_or-Asked : (args : List (Osc.Arg p)) (k : ℕ) (d : ℤ) → Keeps Asked (Osc.int_or p args k d)
  int_or-Asked args k d = elim (Option-cases (get_elem? args k)) [
    | inl e ↦ record { at = λ s h. rw (e, Osc.int_or) h }
    | inr (a, e) ↦ record { at = λ s h. rw (e, Osc.int_or) h }
  ]

  own-Asked :
      (f : Osc.Server p → Osc.Server p)
      → ((s : Osc.Server p) → s.quit_requested ≡ true → (f s).quit_requested ≡ true)
      → Keeps Asked (modify f)
  own-Asked f same = Keeps-modify f λ s h. record { asked = same s h.asked }

  ruleset asked_rules =
      (Keeps-lift, Keeps-bind, arg-Asked, float_or-Asked, int_or-Asked, on_host-Asked)

  handle-Asked : (r : Osc.Route) (args : List (Osc.Arg p)) → Keeps Asked (Osc.handle p r args)
  unfolding Osc.handle Osc.v_f Osc.ii_f Osc.on_in_cut Osc.on_buffer Osc.on_read_mono
      Osc.on_read_stereo Osc.on_write_mono Osc.on_write_stereo Osc.on_clear_channel
      Osc.on_clear_region Osc.on_clear_region_channel
  handle-Asked Osc.hello args = Keeps-pure _
  handle-Asked Osc.quit args = own-Asked _ (λ s h. refl)
  handle-Asked Osc.poll_start args = own-Asked _ (λ s h. h)
  handle-Asked Osc.poll_stop args = own-Asked _ (λ s h. h)
  handle-Asked Osc.unsupported args = Keeps-pure _
  handle-Asked Osc.ignore args = Keeps-pure _
  handle-Asked (Osc.method name) args = search asked_rules depth 20
  handle-Asked Osc.enabled args = search asked_rules depth 20
  handle-Asked Osc.cut_cut args = search asked_rules depth 20
  handle-Asked Osc.in_cut args = search asked_rules depth 20
  handle-Asked Osc.sync_voices args = search asked_rules depth 20
  handle-Asked Osc.assign_buffer args = search asked_rules depth 20
  handle-Asked Osc.read_mono args = search asked_rules depth 20
  handle-Asked Osc.read_stereo args = search asked_rules depth 20
  handle-Asked Osc.write_mono args = search asked_rules depth 20
  handle-Asked Osc.write_stereo args = search asked_rules depth 20
  handle-Asked Osc.clear args = on_host-Asked _
  handle-Asked Osc.clear_channel args = search asked_rules depth 20
  handle-Asked Osc.clear_region args = search asked_rules depth 20
  handle-Asked Osc.clear_region_channel args = search asked_rules depth 20
  handle-Asked Osc.reset args = on_host-Asked _

  pub dispatch-asked :
      (address : String) (args : List (Osc.Arg p)) (s : Osc.Server p)
      → s.quit_requested ≡ true
      → (Osc.dispatch p address args s).quit_requested ≡ true
  unfolding Osc.dispatch
  dispatch-asked address args s h = elim (Option-cases (lookup address Osc.handlers)) [
    | inl e ↦ rw (e, Osc.dispatch) h
    | inr (r, e) ↦ rw (e, Osc.dispatch) ((handle-Asked r args).at s (record { asked = h })).asked
  ]

  pub dispatch-quit :
      (address : String) (args : List (Osc.Arg p)) (s : Osc.Server p)
      → lookup address Osc.handlers ≡ some Osc.quit
      → (Osc.dispatch p address args s).quit_requested ≡ true
  unfolding Osc.dispatch Osc.handle modify
  dispatch-quit address args s h = rw (h, Osc.dispatch) refl
