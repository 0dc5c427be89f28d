-- ===== src/Norns/Setters.antt =====
-- What the per-voice setters of the host do, from the call to the mirror that the property reads.
use softcut_py.Base.{
  ℕ, zero, suc, ◌<◌, ◌≡◌, refl, ◌∙◌, ap, ap₂, nat_eq, ◌&&◌, String, true, ◌||◌, Option, some, List,
  [], ◌∷◌, length, get_elem?, arith, ◌==◌, string_eq, Bool-cases, true-or_false, inl, inr,
  if◌then◌else◌,
}
use softcut_py.Base.Int.{ℤ, pos, ◌-ℤ◌, ltb_ℤ, leb_ℤ}
use softcut_py.Base.Dict.{lookup}
use softcut_py.Base.Exec.{ok, err, ◌>>=◌, index_error}
use mathlib.Core.Option
use softcut_py.Platform.{Platform, Command}
use softcut_py.Voice.{Voice, with_param, contains, mix_props, perform}
use softcut_py.Engine.{Engine, update_at, on_voice, store_param, dsp_apply}
use softcut_py.Engine.Views.{
  view, view-dsp_apply, view-on_voice, Mirrored, flag_at, flag-Mirrored, param_at, param-Mirrored,
}
use softcut_py.Norns.Tables.{stored, voice-refused, call_method-stored}
use softcut_py.Norns.{Host, float_params, float_setter, call_method}

module _ (p : Platform) where
  open p use {F, S, narrow}

  -- The value that the property `k` of voice `i` reads, where there is such a voice.
  abbrev pub mirror : ℕ → String → Engine p → Option S
  mirror i k = param_at p k i

  mirror-dsp_apply :
      (i j : ℕ) (k : String) (c : Command S) (e : Engine p)
      → mirror j k (dsp_apply p i c e).1 ≡ mirror j k e
  mirror-dsp_apply i j k = view-dsp_apply p _ (param-Mirrored p k) i j

  mirror-with_param_self :
      (i : ℕ) (k : String) (x : S) (e : Engine p)
      → i < length e.voices
      → mirror i k (on_voice p i (with_param p k x) e) ≡ some x
  unfolding view
  mirror-with_param_self i k x e lt = from_voices e.voices i lt
    where
      from_voices :
          (vs : List (Voice p)) (i : ℕ)
          → i < length vs
          → Option.map
              (λ (v : Voice p). v.params k)
              (get_elem? (update_at i (with_param p k x) vs) i)
            ≡ some x
      from_voices [] i lt = elim lt [ ]
      from_voices (v ∷ vs) zero lt = rw ((string_eq.same_iff k k).1 refl) refl
      from_voices (v ∷ vs) (suc i) lt = from_voices vs i (omega arith)

  mirror-with_param_other :
      (i j : ℕ) (k a : String) (x : S) (e : Engine p)
      → ¬ ((j ≡ i) × (a ≡ k))
      → mirror j a (on_voice p i (with_param p k x) e) ≡ mirror j a e
  unfolding view
  mirror-with_param_other i j k a x e other = from_voices e.voices i j other
    where
      from_voices :
          (vs : List (Voice p)) (i j : ℕ)
          → ¬ ((j ≡ i) × (a ≡ k))
          → Option.map
              (λ (v : Voice p). v.params a)
              (get_elem? (update_at i (with_param p k x) vs) j)
            ≡ Option.map (λ (v : Voice p). v.params a) (get_elem? vs j)
      from_voices [] i j other = refl
      from_voices (v ∷ vs) zero zero other = elim (Bool-cases (a == k)) [
        | inl same ↦ absurd (other (refl, (string_eq.same_iff a k).0 same))
        | inr ne ↦ rw ne refl
      ]
      from_voices (v ∷ vs) zero (suc j) other = refl
      from_voices (v ∷ vs) (suc i) zero other = refl
      from_voices (v ∷ vs) (suc i) (suc j) other =
          from_voices vs i j (λ (e, q). other (ap suc e, q))

  -- What the engine shows after a float attribute is set, however the change reaches the DSP voice.
  Shows : ℕ → String → S → Engine p → Engine p → Type 0
  Shows k attr x e e' =
      (mirror k attr e' ≡ some x)
      × ((j : ℕ) (a : String) → ¬ ((j ≡ k) × (a ≡ attr)) → mirror j a e' ≡ mirror j a e)

  stored-Shows :
      (attr : String) (k : ℕ) (x : S) (e : Engine p)
      → k < length e.voices
      → Shows k attr x e (stored p attr k x e)
  unfolding Shows store_param
  stored-Shows attr k x e lt = elim (Bool-cases (contains mix_props attr)) [
    | inl mix ↦
        rw (mix, stored)
          ((mirror-with_param_self k attr x e lt, λ j a. mirror-with_param_other k j attr a x e))
    | inr dsp ↦
        rw (dsp, stored)
          ((
            mirror-dsp_apply k k attr _ _ ∙ mirror-with_param_self k attr x e lt,
            λ j a other. mirror-dsp_apply k j a _ _ ∙ mirror-with_param_other k j attr a x e other,
          ))
  ]

  -- The array that a voice holds, and its frames.
  abbrev pub array_of : Voice p → Option ℕ × ℕ
  array_of v = (v.buffer, v.frames)

  -- Nothing but the float mirrors and the DSP voices, or the queue to them, is another: the flags of the
  -- voices, the arrays they hold and their contents, the gains and the settings of the engine.
  pub record KeepsRest (e e' : Engine p) : Type 0 where
    pub flags : (j : ℕ) (a : String) → flag_at p a j e' ≡ flag_at p a j e
    pub held : (j : ℕ) → view p array_of j e' ≡ view p array_of j e
    pub contents : e'.arrays ≡ e.arrays
    pub gains : e'.fb ≡ e.fb
    pub native : e'.osc_queue ≡ e.osc_queue
    pub running : e'.running ≡ e.running

  KeepsRest-on_voice :
      (i : ℕ) (attr : String) (x : S) (e : Engine p)
      → KeepsRest e (on_voice p i (with_param p attr x) e)
  KeepsRest-on_voice i attr x e = record {
    flags = λ j a. view-on_voice p _ i j _ e (λ v. refl);
    held = λ j. view-on_voice p _ i j _ e (λ v. refl);
    contents = refl;
    gains = refl;
    native = refl;
    running = refl;
  }

  held-Mirrored : Mirrored p array_of
  unfolding perform
  held-Mirrored = record { performed = λ c v. refl; counted = λ n m v. refl }

  KeepsRest-dsp_apply : (i : ℕ) (c : Command S) (e : Engine p) → KeepsRest e (dsp_apply p i c e).1
  unfolding dsp_apply
  KeepsRest-dsp_apply i c e = record {
    flags = λ j a. view-dsp_apply p _ (flag-Mirrored p a) i j c e;
    held = λ j. view-dsp_apply p _ held-Mirrored i j c e;
    contents = ground arith;
    gains = ground arith;
    native = ground arith;
    running = ground arith;
  }

  KeepsRest-trans : {e f g : Engine p} → KeepsRest e f → KeepsRest f g → KeepsRest e g
  KeepsRest-trans a b = record {
    flags = λ j k. b.flags j k ∙ a.flags j k;
    held = λ j. b.held j ∙ a.held j;
    contents = b.contents ∙ a.contents;
    gains = b.gains ∙ a.gains;
    native = b.native ∙ a.native;
    running = b.running ∙ a.running;
  }

  KeepsRest-stored :
      (attr : String) (k : ℕ) (x : S) (e : Engine p) → KeepsRest e (stored p attr k x e)
  unfolding store_param
  KeepsRest-stored attr k x e = elim (Bool-cases (contains mix_props attr)) [
    | inl mix ↦ rw (mix, stored) (KeepsRest-on_voice k attr x e)
    | inr dsp ↦
        rw (dsp, stored)
          (KeepsRest-trans (KeepsRest-on_voice k attr x e) (KeepsRest-dsp_apply k _ _))
  ]

  -- The same as one equation for every voice and property.
  abbrev pub replaced : ℕ → String → S → Engine p → ℕ → String → Option S
  replaced k attr x e j a = if (j == k) && (a == attr) then some x else mirror j a e

  Shows-replaced :
      (k : ℕ) (attr : String) (x : S) (e e' : Engine p) (j : ℕ) (a : String)
      → Shows k attr x e e'
      → mirror j a e' ≡ replaced k attr x e j a
  unfolding Shows
  Shows-replaced k attr x e e' j a (own, other) = elim (Bool-cases (j == k)) [
    | inl jk ↦ elim (Bool-cases (a == attr)) [
      | inl ak ↦
          rw (jk, ak, replaced)
            (ap₂ (λ (i : ℕ) (b : String). mirror i b e') ((nat_eq.same_iff j k).0 jk)
                ((string_eq.same_iff a attr).0 ak)
              ∙ own)
      | inr ak ↦
          rw (jk, ak, replaced)
            (other j a (λ (ej, ea). true-or_false ((string_eq.same_iff a attr).1 ea) ak))
    ]
    | inr jk ↦
        rw (jk, replaced) (other j a (λ (ej, ea). true-or_false ((nat_eq.same_iff j k).1 ej) jk))
  ]

  -- A float method of the tables, called with the number of a voice: it returns, the voice's property
  -- then reads the value in single precision, and every other float property of it and of the other
  -- voices reads what it did; the flags of all voices, the arrays they hold, the contents of the arrays, the
  -- gains, the native queue and the running state stay. This holds while the engine runs too, even with
  -- its queue full.
  pub call_method-mirror :
      (name attr : String) (k : ℕ) (x : F) (h : Host p) (j : ℕ) (a : String)
      → lookup name float_params ≡ some attr
      → h.voices ≡ pos (length h.engine.voices)
      → k < length h.engine.voices
      → ((call_method p name (pos (suc k)) x h).0 ≡ ok tt)
        × (mirror j a (call_method p name (pos (suc k)) x h).1.engine
            ≡ replaced k attr (narrow x) h.engine j a)
        × KeepsRest h.engine (call_method p name (pos (suc k)) x h).1.engine
  call_method-mirror name attr k x h j a found same lt =
      rw (call_method-stored p name attr k x h found same lt) (
        refl,
        Shows-replaced k attr (narrow x) h.engine _ j a
            (stored-Shows attr k (narrow x) h.engine lt),
        KeepsRest-stored attr k (narrow x) h.engine,
      )

  -- A number that is no voice's raises IndexError and changes nothing.
  pub call_method-refused :
      (name attr : String) (i : ℤ) (x : F) (h : Host p)
      → lookup name float_params ≡ some attr
      → ltb_ℤ (i -ℤ pos 1) (pos 0) || leb_ℤ h.voices (i -ℤ pos 1) ≡ true
      → call_method p name i x h ≡ (err index_error, h)
  unfolding call_method float_setter ◌>>=◌
  call_method-refused name attr i x h found bad =
      rw (found, voice-refused p i h bad, call_method) refl
