-- ===== src/Osc/Shape.antt =====
-- No message of the OSC server changes the layout of its host.
use softcut_py.Base.{
  ℕ, ◌≡◌, refl, ◌∙◌, String, List, [], ◌∷◌, get_elem?, Option-cases, inl, inr, string_eq,
}
use softcut_py.Base.Int.{ℤ}
use softcut_py.Base.Dict.{lookup}
use softcut_py.Base.Exec.{Exec, modify}
use softcut_py.Base.Exec.Keeps.{Keeps, Keeps-pure, Keeps-lift, Keeps-bind, Keeps-modify}
use softcut_py.Platform.{Platform}
use softcut_py.Engine.{num}
use softcut_py.Engine.Shape.{voice_at-HasShape, set_property-HasShape}
use softcut_py.Norns.{Host}
use softcut_py.Norns.Shape.{
  Layout, layout, HasLayout, on_engine-HasLayout, call_method-HasLayout, bool_setter-HasLayout,
  buffer-HasLayout, voice_sync-HasLayout, level_cut_cut-HasLayout, reset_all-HasLayout,
}
use softcut_py.Norns.Shape.Regions.{
  buffer_read_mono-HasLayout, buffer_read_stereo-HasLayout, buffer_write_mono-HasLayout,
  buffer_write_stereo-HasLayout, buffer_clear-HasLayout, buffer_clear_channel-HasLayout,
  buffer_clear_region-HasLayout, buffer_clear_region_channel-HasLayout,
}
use softcut_py.Osc

module _ (p : Platform) where
  open p use {F}

  -- The layout of the server's host.
  record Serves (l : Layout F) (s : Osc.Server p) : Type 0 where
    pub hosts : HasLayout p l s.host

  module _ {l : Layout F} where
    on_host-Serves :
        (m : Exec (Host p) Unit) → Keeps (HasLayout p l) m → Keeps (Serves l) (Osc.on_host p m)
    on_host-Serves m k = record { at = λ s h. record { hosts = k.at s.host h.hosts } }

    -- Reading an argument leaves the server alone.
    arg-Serves : (args : List (Osc.Arg p)) (k : ℕ) → Keeps (Serves l) (Osc.arg p args k)
    arg-Serves args k = elim (Option-cases (get_elem? args k)) [
      | inl e ↦ record { at = λ s h. rw (e, Osc.arg) h }
      | inr (a, e) ↦ record { at = λ s h. rw (e, Osc.arg) h }
    ]

    float_or-Serves :
        (args : List (Osc.Arg p)) (k : ℕ) (d : F) → Keeps (Serves l) (Osc.float_or p args k d)
    float_or-Serves args k d = elim (Option-cases (get_elem? args k)) [
      | inl e ↦ record { at = λ s h. rw (e, Osc.float_or) h }
      | inr (a, e) ↦ record { at = λ s h. rw (e, Osc.float_or) h }
    ]

    int_or-Serves :
        (args : List (Osc.Arg p)) (k : ℕ) (d : ℤ) → Keeps (Serves l) (Osc.int_or p args k d)
    int_or-Serves args k d = elim (Option-cases (get_elem? args k)) [
      | inl e ↦ record { at = λ s h. rw (e, Osc.int_or) h }
      | inr (a, e) ↦ record { at = λ s h. rw (e, Osc.int_or) h }
    ]

    ruleset argument_rules =
        (Keeps-lift, Keeps-bind, arg-Serves, float_or-Serves, int_or-Serves, on_host-Serves)

    v_f-Serves :
        (m : ℤ → F → Exec (Host p) Unit) (args : List (Osc.Arg p))
        → ((i : ℤ) (x : F) → Keeps (HasLayout p l) (m i x))
        → Keeps (Serves l) (Osc.v_f p m args)
    unfolding Osc.v_f
    v_f-Serves m args keep = search argument_rules depth 20

    ii_f-Serves :
        (m : ℤ → ℤ → F → Exec (Host p) Unit) (args : List (Osc.Arg p))
        → ((i j : ℤ) (x : F) → Keeps (HasLayout p l) (m i j x))
        → Keeps (Serves l) (Osc.ii_f p m args)
    unfolding Osc.ii_f
    ii_f-Serves m args keep = search argument_rules depth 20

    on_in_cut-Serves : (args : List (Osc.Arg p)) → Keeps (Serves l) (Osc.on_in_cut p args)
    unfolding Osc.on_in_cut
    on_in_cut-Serves args = Keeps-bind _ _ (arg-Serves args 0) λ a.
        Keeps-bind _ _ (arg-Serves args 1) λ v. Keeps-bind _ _ (arg-Serves args 2) λ level.
          Keeps-bind _ _ (Keeps-lift _) λ gain. Keeps-bind _ _ (Keeps-lift _) λ i.
            on_host-Serves _ (
              on_engine-HasLayout p _ λ s.
                Keeps-bind _ _ (voice_at-HasShape p i)
                  λ k. set_property-HasShape p k "input_gain" (num gain))

    on_buffer-Serves : (args : List (Osc.Arg p)) → Keeps (Serves l) (Osc.on_buffer p args)
    unfolding Osc.on_buffer
    on_buffer-Serves args = search (argument_rules, buffer-HasLayout) depth 20

    on_read_mono-Serves : (args : List (Osc.Arg p)) → Keeps (Serves l) (Osc.on_read_mono p args)
    unfolding Osc.on_read_mono
    on_read_mono-Serves args = search (argument_rules, buffer_read_mono-HasLayout) depth 20

    on_read_stereo-Serves : (args : List (Osc.Arg p)) → Keeps (Serves l) (Osc.on_read_stereo p args)
    unfolding Osc.on_read_stereo
    on_read_stereo-Serves args = search (argument_rules, buffer_read_stereo-HasLayout) depth 20

    on_write_mono-Serves : (args : List (Osc.Arg p)) → Keeps (Serves l) (Osc.on_write_mono p args)
    unfolding Osc.on_write_mono
    on_write_mono-Serves args = search (argument_rules, buffer_write_mono-HasLayout) depth 20

    on_write_stereo-Serves :
        (args : List (Osc.Arg p)) → Keeps (Serves l) (Osc.on_write_stereo p args)
    unfolding Osc.on_write_stereo
    on_write_stereo-Serves args = search (argument_rules, buffer_write_stereo-HasLayout) depth 20

    on_clear_channel-Serves :
        (args : List (Osc.Arg p)) → Keeps (Serves l) (Osc.on_clear_channel p args)
    unfolding Osc.on_clear_channel
    on_clear_channel-Serves args = search (argument_rules, buffer_clear_channel-HasLayout) depth 20

    on_clear_region-Serves :
        (args : List (Osc.Arg p)) → Keeps (Serves l) (Osc.on_clear_region p args)
    unfolding Osc.on_clear_region
    on_clear_region-Serves args = search (argument_rules, buffer_clear_region-HasLayout) depth 20

    on_clear_region_channel-Serves :
        (args : List (Osc.Arg p)) → Keeps (Serves l) (Osc.on_clear_region_channel p args)
    unfolding Osc.on_clear_region_channel
    on_clear_region_channel-Serves args =
        search (argument_rules, buffer_clear_region_channel-HasLayout) depth 20

    set_enabled-HasLayout : (i : ℤ) (x : F) → Keeps (HasLayout p l) (Osc.set_enabled p i x)
    unfolding Osc.set_enabled
    set_enabled-HasLayout i x = bool_setter-HasLayout p "play" i _

    -- What changes the server and not its host.
    own-Serves :
        (f : Osc.Server p → Osc.Server p)
        → ((s : Osc.Server p) → (f s).host ≡ s.host)
        → Keeps (Serves l) (modify f)
    own-Serves f same = Keeps-modify f λ s h. record { hosts = rw (same s) h.hosts }

    handle-Serves :
        (r : Osc.Route) (args : List (Osc.Arg p)) → Keeps (Serves l) (Osc.handle p r args)
    unfolding Osc.handle
    handle-Serves Osc.hello args = Keeps-pure _
    handle-Serves Osc.quit args = own-Serves _ (λ s. refl)
    handle-Serves Osc.poll_start args = own-Serves _ (λ s. refl)
    handle-Serves Osc.poll_stop args = own-Serves _ (λ s. refl)
    handle-Serves Osc.unsupported args = Keeps-pure _
    handle-Serves Osc.ignore args = Keeps-pure _
    handle-Serves (Osc.method name) args = v_f-Serves _ args (call_method-HasLayout p name)
    handle-Serves Osc.enabled args = v_f-Serves _ args (λ i x. set_enabled-HasLayout i x)
    handle-Serves Osc.cut_cut args = ii_f-Serves _ args (level_cut_cut-HasLayout p)
    handle-Serves Osc.in_cut args = on_in_cut-Serves args
    handle-Serves Osc.sync_voices args = ii_f-Serves _ args (voice_sync-HasLayout p)
    handle-Serves Osc.assign_buffer args = on_buffer-Serves args
    handle-Serves Osc.read_mono args = on_read_mono-Serves args
    handle-Serves Osc.read_stereo args = on_read_stereo-Serves args
    handle-Serves Osc.write_mono args = on_write_mono-Serves args
    handle-Serves Osc.write_stereo args = on_write_stereo-Serves args
    handle-Serves Osc.clear args = on_host-Serves _ (buffer_clear-HasLayout p)
    handle-Serves Osc.clear_channel args = on_clear_channel-Serves args
    handle-Serves Osc.clear_region args = on_clear_region-Serves args
    handle-Serves Osc.clear_region_channel args = on_clear_region_channel-Serves args
    handle-Serves Osc.reset args = on_host-Serves _ (reset_all-HasLayout p)

  dispatch-layout :
      (address : String) (args : List (Osc.Arg p)) (s : Osc.Server p)
      → layout p (Osc.dispatch p address args s).host ≡ layout p s.host
  unfolding Osc.dispatch
  dispatch-layout address args s = elim (Option-cases (lookup address Osc.handlers)) [
    | inl e ↦ rw (e, Osc.dispatch) refl
    | inr (r, e) ↦
        rw (e, Osc.dispatch)
          ((handle-Serves r args).at s (record { hosts = record { same = refl } })).hosts.same
  ]

  -- Whatever messages the server is sent, with whatever arguments, its host keeps the number of
  -- voices and of feedback gains, the length of each array, the array of each buffer number, its own
  -- count of voices and its sample rate.
  pub dispatch_all-layout :
      (messages : List (String × List (Osc.Arg p))) (s : Osc.Server p)
      → layout p (Osc.dispatch_all p messages s).host ≡ layout p s.host
  unfolding Osc.dispatch_all
  dispatch_all-layout [] s = refl
  dispatch_all-layout ((address, args) ∷ rest) s =
      dispatch_all-layout rest (Osc.dispatch p address args s) ∙ dispatch-layout address args s
