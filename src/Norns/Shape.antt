-- ===== src/Norns/Shape.antt =====
-- Buffer operations write in place: no method of the host changes the number of voices or arrays, the
-- length of an array, or which array a buffer number stands for.
pub mod Regions
use softcut_py.Base.{
  ℕ, zero, suc, ◌≡◌, refl, ◌∙◌, ap, sym, String, Bool, true, false, Option, none, some, List, [],
  ◌∷◌, map, length, string_eq, set, get_or, get_elem?, Option-cases, inl, inr, if◌then◌else◌,
  Bool-cases, ◌||◌,
}
use softcut_py.Base.Int.{ℤ, pos, negsuc, ◌-ℤ◌, ltb_ℤ, leb_ℤ, int_eq}
use softcut_py.Base.Dict.{Dict, lookup, insert}
use softcut_py.Base.Exec.{Exec, Result, ok, err, modify, lift, ◌>>=◌, resume, for_each, or_raise}
use softcut_py.Base.Exec.Keeps.{
  Keeps, keeps_rules, Keeps-modify, Keeps-if, Keeps-bind, Keeps-lift, Keeps-gets, Keeps-or_raise,
  Keeps-for_each, Keeps-raise,
}
use softcut_py.Platform.{Platform, truthy, as_int64}
use softcut_py.Buffers.{buffer_apply, apply_to_buffer, apply_count}
use softcut_py.Buffers.Region.{length-buffer_apply}
use softcut_py.Engine.{Engine, num, flag, cut_to}
use softcut_py.Engine
use softcut_py.Engine.Shape
use softcut_py.Engine.Shape.{
  HasShape, modify-HasShape, setattr-HasShape, set_voice_buffer-HasShape, voice_at-HasShape,
  sync-HasShape, set_feedback-HasShape, shape-cut_to, shape-reset,
}
use softcut_py.Wav.{Disk}
use softcut_py.Norns.{
  Host, on_engine, voice, position, buffer, voice_sync, level_cut_cut, start_routing, reset_all,
  float_setter, bool_setter, call_method, float_params, bool_params, voice_numbers, frames,
}
use softcut_py.Norns.Regions.{
  on_disk, samples_or, frames_of, array_of, samples_at, store_array, apply_at, apply, channel,
  buffer_read_mono, buffer_read_stereo, segment, buffer_write_mono, buffer_write_stereo,
  clear_count, clear_region, buffer_clear_channel, buffer_clear, buffer_clear_region,
  buffer_clear_region_channel, copied, buffer_copy_mono, buffer_copy_stereo,
}

pub record Layout (F : Type 0) : Type 0 where
  pub shape : Shape.Shape
  pub buf : Dict ℤ ℕ
  pub voices : ℤ
  pub sample_rate : F

module _ (p : Platform) where
  open p use {F, S, narrow}

  abbrev pub layout : Host p → Layout F
  layout h = record {
    shape = Shape.shape p h.engine;
    buf = h.buf;
    voices = h.voices;
    sample_rate = h.sample_rate;
  }

  pub record HasLayout (l : Layout F) (h : Host p) : Type 0 where
    pub same : layout h ≡ l

  module _ {l : Layout F} where
    pub on_engine-HasLayout :
        {A : Type 0} (m : Exec (Engine p) A)
        → ((s : Shape.Shape) → Keeps (HasShape p s) m)
        → Keeps (HasLayout l) (on_engine p m)
    on_engine-HasLayout m keep = record {
      at = λ h k. record {
        same =
            ap
              (λ (s : Shape.Shape). record {
                shape = s;
                buf = h.buf;
                voices = h.voices;
                sample_rate = h.sample_rate;
              })
              ((keep (Shape.shape p h.engine)).at h.engine (record { same = refl })).same
            ∙ k.same;
      };
    }

    -- A change of what the layout does not show.
    modify-HasLayout :
        (f : Host p → Host p)
        → ((h : Host p) → layout (f h) ≡ layout h)
        → Keeps (HasLayout l) (modify f)
    modify-HasLayout f keep = Keeps-modify f (λ h k. record { same = keep h ∙ k.same })

    pub voice-HasLayout : (i : ℤ) → Keeps (HasLayout l) (voice p i)
    unfolding voice
    voice-HasLayout i = record {
      at = λ h k. elim (Bool-cases (ltb_ℤ (i -ℤ pos 1) (pos 0) || leb_ℤ h.voices (i -ℤ pos 1))) [
        | inl bad ↦ rw (bad, voice) k
        | inr good ↦
            rw (good, voice)
              ((on_engine-HasLayout (Engine.voice_at p (i -ℤ pos 1))
                  (λ s. voice_at-HasShape p (i -ℤ pos 1))).at
                h k)
      ];
    }

    pub position-HasLayout : (i : ℤ) (x : F) → Keeps (HasLayout l) (position p i x)
    unfolding position
    position-HasLayout i x = Keeps-bind _ _ (voice-HasLayout i) λ v.
        on_engine-HasLayout (modify (cut_to p v x))
          λ s. modify-HasShape p (cut_to p v x) (shape-cut_to p v x)

    pub buffer-HasLayout : (i b : ℤ) → Keeps (HasLayout l) (buffer p i b)
    unfolding buffer
    buffer-HasLayout i b = Keeps-bind _ _ (Keeps-gets _) λ o.
        Keeps-bind _ _ (Keeps-or_raise o _) λ a. Keeps-bind _ _ (voice-HasLayout i) λ v.
          Keeps-bind _ _ (on_engine-HasLayout _ (λ s. set_voice_buffer-HasShape p v a))
            (λ _. modify-HasLayout _ (λ h. refl))

    pub voice_sync-HasLayout : (dst src : ℤ) (x : F) → Keeps (HasLayout l) (voice_sync p dst src x)
    unfolding voice_sync
    voice_sync-HasLayout dst src x = on_engine-HasLayout _ (λ s. sync-HasShape p _ _ x)

    pub level_cut_cut-HasLayout :
        (src dst : ℤ) (x : F) → Keeps (HasLayout l) (level_cut_cut p src dst x)
    unfolding level_cut_cut
    level_cut_cut-HasLayout src dst x =
        on_engine-HasLayout _ (λ s. set_feedback-HasShape p (src -ℤ pos 1) (dst -ℤ pos 1) x)

    pub start_routing-HasLayout : (n : ℕ) → Keeps (HasLayout l) (start_routing p n)
    start_routing-HasLayout n = Keeps-for_each _ _ (λ i. buffer-HasLayout i (pos 1))

    pub reset_all-HasLayout : Keeps (HasLayout l) (reset_all p)
    unfolding reset_all
    reset_all-HasLayout = Keeps-bind _ _ (Keeps-gets _) λ places.
        Keeps-bind _ _
          (on_engine-HasLayout _ λ s.
            Keeps-for_each places _ (λ v. modify-HasShape p (Engine.reset p v) (shape-reset p v)))
          λ _. Keeps-bind _ _ (Keeps-gets _) (λ n. start_routing-HasLayout _)

    float_setter-HasLayout :
        (attr : String) (i : ℤ) (x : F) → Keeps (HasLayout l) (float_setter p attr i x)
    unfolding float_setter
    float_setter-HasLayout attr i x =
        Keeps-bind _ _ (voice-HasLayout i)
          λ v. on_engine-HasLayout _ (λ s. setattr-HasShape p v attr (num x))

    pub bool_setter-HasLayout :
        (attr : String) (i : ℤ) (x : Bool) → Keeps (HasLayout l) (bool_setter p attr i x)
    unfolding bool_setter
    bool_setter-HasLayout attr i x =
        Keeps-bind _ _ (voice-HasLayout i)
          λ v. on_engine-HasLayout _ (λ s. setattr-HasShape p v attr (flag x))

    pub call_method-HasLayout :
        (name : String) (i : ℤ) (x : F) → Keeps (HasLayout l) (call_method p name i x)
    unfolding call_method
    call_method-HasLayout name i x = elim (Option-cases (lookup name float_params)) [
      | inr (attr, e) ↦ rw (e, call_method) (float_setter-HasLayout attr i x)
      | inl none_float ↦ elim (Option-cases (lookup name bool_params)) [
        | inr (attr, e) ↦
            rw (none_float, e, call_method) (bool_setter-HasLayout attr i (truthy p x))
        | inl none_bool ↦
            rw (none_float, none_bool, call_method)
              (Keeps-if _ _ _ (position-HasLayout i x) (Keeps-raise _))
      ]
    ]
