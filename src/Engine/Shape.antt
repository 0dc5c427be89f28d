-- ===== src/Engine/Shape.antt =====
-- What no operation of a voice or of the engine changes: how many voices, feedback gains and arrays
-- there are, and how long each array is.
use softcut_py.Base.{
  ℕ, zero, suc, ◌+◌, ◌-◌, ◌≡◌, refl, ◌∙◌, ap, String, Bool, true, false, some, List, [], ◌∷◌, map,
  length, set, length-set, get_elem?, arith, Option-cases, inl, inr, Bool-cases,
}
use softcut_py.Base.Int.{ℤ}
use softcut_py.Base.Exec.{Result, modify, ◌>>=◌, ok, err, or_raise, resume}
use softcut_py.Base.Exec.Keeps.{
  Keeps, keeps_rules, Keeps-modify, Keeps-if, Keeps-bind, Keeps-lift, Keeps-raise,
}
use softcut_py.Platform.{Platform, Command, set_buffer, set_fade_shape}
use softcut_py.Voice.{Voice, contains, perform, with_param, with_flag}
use softcut_py.Engine.{
  Engine, Value, text, arr, region, update_at, on_voice, dsp_apply, flag_apply, store_param,
  store_flag, set_rec, set_rec_once, cut_to, reset, assign_array, set_voice_buffer, voice_at,
}
use softcut_py.Engine.Attributes.{
  Kind, dsp_param, mix_param, plain_flag, rec_flag, rec_once_flag, fade_shape, array_ref,
  voice_rate, store_sample_rate, no_setter, kind_of, set_kind, fade_shapes, set_property, set_array,
  set_fade, setattr, set_loop_region, unpack_region,
}
use softcut_py.Engine.Methods.{sync, set_feedback, fb_place}

pub length-update_at {ℓ} :
    {A : Type ℓ} (i : ℕ) (f : A → A) (xs : List A) → length (update_at i f xs) ≡ length xs
length-update_at i f [] = refl
length-update_at zero f (x ∷ xs) = refl
length-update_at (suc i) f (x ∷ xs) = ap suc (length-update_at i f xs)

pub record Shape : Type 0 where
  pub voice_count : ℕ
  pub gain_count : ℕ
  pub array_lengths : List ℕ

module _ (p : Platform) where
  open p use {S, F, narrow}

  unfoldable pub shape : Engine p → Shape
  shape e = record {
    voice_count = length e.voices;
    gain_count = length e.fb;
    array_lengths = map length e.arrays;
  }

  pub shape-on_voice :
      (i : ℕ) (f : Voice p → Voice p) (e : Engine p) → shape (on_voice p i f e) ≡ shape e
  unfolding shape
  shape-on_voice i f e = rw (length-update_at i f e.voices)

  pub shape-dsp_apply :
      (i : ℕ) (c : Command S) (e : Engine p) → shape (dsp_apply p i c e).1 ≡ shape e
  unfolding dsp_apply shape
  shape-dsp_apply i c e = ground (
    arith,
    length-update_at i (perform p c) e.voices,
    length-update_at i (λ v. record v { dropped = suc v.dropped }) e.voices,
  )

  pub shape-flag_apply :
      (i : ℕ) (c : Command S) (e : Engine p) → shape (flag_apply p i c e) ≡ shape e
  unfolding flag_apply
  shape-flag_apply i c e =
      let e1 = on_voice p i (λ v. record v { pending = v.pending + 1 }) e in
      let e2 = (dsp_apply p i c e1).1 in
      let pushed =
        shape-dsp_apply i c e1 ∙ shape-on_voice i (λ v. record v { pending = v.pending + 1 }) e in
      elim (Bool-cases (dsp_apply p i c e1).0) [
        | inl done ↦ rw done pushed
        | inr lost ↦
            rw lost (shape-on_voice i (λ v. record v { pending = v.pending - 1 }) e2 ∙ pushed)
      ]

  pub shape-store_param :
      (i : ℕ) (k : String) (x : S) (e : Engine p) → shape (store_param p i k x e) ≡ shape e
  unfolding store_param
  shape-store_param i k x e =
      shape-dsp_apply i _ (on_voice p i (with_param p k x) e)
      ∙ shape-on_voice i (with_param p k x) e

  pub shape-store_flag :
      (i : ℕ) (k : String) (x : Bool) (e : Engine p) → shape (store_flag p i k x e) ≡ shape e
  unfolding store_flag
  shape-store_flag i k x e =
      shape-dsp_apply i _ (on_voice p i (with_flag p k x) e) ∙ shape-on_voice i (with_flag p k x) e

  pub shape-store_sample_rate :
      (i : ℕ) (x : S) (e : Engine p) → shape (store_sample_rate p i x e) ≡ shape e
  unfolding store_sample_rate
  shape-store_sample_rate i x e =
      shape-dsp_apply i _ (on_voice p i (λ v. record v { sample_rate = x }) e)
      ∙ shape-on_voice i (λ v. record v { sample_rate = x }) e

  pub shape-set_rec : (i : ℕ) (x : Bool) (e : Engine p) → shape (set_rec p i x e) ≡ shape e
  unfolding set_rec
  shape-set_rec i true e = shape-flag_apply i _ _ ∙ shape-on_voice i (with_flag p "rec" true) e
  shape-set_rec i false e =
      shape-flag_apply i _ _
      ∙ shape-on_voice i (with_flag p "rec_once" false) (on_voice p i (with_flag p "rec" false) e)
      ∙ shape-on_voice i (with_flag p "rec" false) e

  pub shape-set_rec_once :
      (i : ℕ) (x : Bool) (e : Engine p) → shape (set_rec_once p i x e) ≡ shape e
  unfolding set_rec_once
  shape-set_rec_once i false e =
      shape-flag_apply i _ _ ∙ shape-on_voice i (with_flag p "rec_once" false) e
  shape-set_rec_once i true e =
      shape-flag_apply i _ _
      ∙ shape-on_voice i (with_flag p "rec" true) (on_voice p i (with_flag p "rec_once" true) e)
      ∙ shape-on_voice i (with_flag p "rec_once" true) e

  pub shape-cut_to : (i : ℕ) (x : F) (e : Engine p) → shape (cut_to p i x e) ≡ shape e
  unfolding cut_to
  shape-cut_to i x e = shape-dsp_apply i _ e

  pub shape-reset : (i : ℕ) (e : Engine p) → shape (reset p i e) ≡ shape e
  unfolding reset
  shape-reset i e = shape-on_voice i _ _ ∙ shape-flag_apply i _ e

  pub shape-assign_array : (i a n : ℕ) (e : Engine p) → shape (assign_array p i a n e).1 ≡ shape e
  unfolding assign_array
  shape-assign_array i a n e = ground (
    arith,
    shape-on_voice i (λ v. record (perform p (set_buffer a) v) { buffer = some a; frames = n }) e,
    shape-on_voice i (λ v. record v { buffer = some a }) (dsp_apply p i (set_buffer a) e).1,
    shape-dsp_apply i (set_buffer a) e,
  )

  -- The engine has this shape.
  pub record HasShape (s : Shape) (e : Engine p) : Type 0 where
    pub same : shape e ≡ s

  module _ {s : Shape} where
    -- A state change that keeps every shape.
    pub modify-HasShape :
        (f : Engine p → Engine p)
        → ((e : Engine p) → shape (f e) ≡ shape e)
        → Keeps (HasShape s) (modify f)
    modify-HasShape f keep = Keeps-modify f (λ e h. record { same = keep e ∙ h.same })

    pub set_voice_buffer-HasShape : (i a : ℕ) → Keeps (HasShape s) (set_voice_buffer p i a)
    unfolding set_voice_buffer
    set_voice_buffer-HasShape i a = record {
      at = λ e h. elim (Option-cases (get_elem? e.arrays a)) [
        | inl missing ↦ rw (missing, set_voice_buffer) h
        | inr (xs, found) ↦
            rw (found, set_voice_buffer)
              (record { same = shape-assign_array i a (length xs) e ∙ h.same })
      ];
    }

    set_array-HasShape : (i : ℕ) (v : Value p) → Keeps (HasShape s) (set_array p i v)
    unfolding set_array
    set_array-HasShape i (arr a) = set_voice_buffer-HasShape i a
    set_array-HasShape i _ = search keeps_rules

    set_fade-HasShape : (i : ℕ) (k : String) (v : Value p) → Keeps (HasShape s) (set_fade p i k v)
    unfolding set_fade
    set_fade-HasShape i k (text name) = record {
      at = λ e h. elim (Bool-cases (contains fade_shapes name)) [
        | inl known ↦
            rw (known, set_fade)
              (record { same = shape-dsp_apply i (set_fade_shape k name) e ∙ h.same })
        | inr unknown ↦ rw (unknown, set_fade) h
      ];
    }
    set_fade-HasShape i k _ = record { at = λ e h. h }

    param-HasShape :
        (i : ℕ) (k : String) (x : S) → Keeps (HasShape s) (modify (store_param p i k x))
    param-HasShape i k x = modify-HasShape _ (shape-store_param i k x)

    mix-HasShape :
        (i : ℕ) (k : String) (x : S) → Keeps (HasShape s) (modify (on_voice p i (with_param p k x)))
    mix-HasShape i k x = modify-HasShape _ (shape-on_voice i (with_param p k x))

    flag-HasShape :
        (i : ℕ) (k : String) (x : Bool) → Keeps (HasShape s) (modify (store_flag p i k x))
    flag-HasShape i k x = modify-HasShape _ (shape-store_flag i k x)

    rec-HasShape : (i : ℕ) (x : Bool) → Keeps (HasShape s) (modify (set_rec p i x))
    rec-HasShape i x = modify-HasShape _ (shape-set_rec i x)

    rec_once-HasShape : (i : ℕ) (x : Bool) → Keeps (HasShape s) (modify (set_rec_once p i x))
    rec_once-HasShape i x = modify-HasShape _ (shape-set_rec_once i x)

    set_kind-HasShape :
        (c : Kind) (i : ℕ) (k : String) (v : Value p) → Keeps (HasShape s) (set_kind p c i k v)
    unfolding set_kind
    set_kind-HasShape dsp_param i k v = Keeps-bind _ _ (Keeps-lift _) (param-HasShape i k)
    set_kind-HasShape mix_param i k v = Keeps-bind _ _ (Keeps-lift _) (mix-HasShape i k)
    set_kind-HasShape plain_flag i k v = Keeps-bind _ _ (Keeps-lift _) (flag-HasShape i k)
    set_kind-HasShape rec_flag i k v = Keeps-bind _ _ (Keeps-lift _) (rec-HasShape i)
    set_kind-HasShape rec_once_flag i k v = Keeps-bind _ _ (Keeps-lift _) (rec_once-HasShape i)
    set_kind-HasShape fade_shape i k v = set_fade-HasShape i k v
    set_kind-HasShape array_ref i k v = set_array-HasShape i v
    set_kind-HasShape voice_rate i k v =
        Keeps-bind _ _ (Keeps-lift _) λ x. modify-HasShape _ (shape-store_sample_rate i x)
    set_kind-HasShape no_setter i k v = Keeps-raise _

    pub set_property-HasShape :
        (i : ℕ) (k : String) (v : Value p) → Keeps (HasShape s) (set_property p i k v)
    unfolding set_property
    set_property-HasShape i k v = set_kind-HasShape (kind_of k) i k v

    set_loop_region-HasShape :
        (i : ℕ) (first last : F) → Keeps (HasShape s) (set_loop_region p i first last)
    unfolding set_loop_region
    set_loop_region-HasShape i first last = search (keeps_rules, set_property-HasShape)

    unpack_region-HasShape : (i : ℕ) (v : Value p) → Keeps (HasShape s) (unpack_region p i v)
    unfolding unpack_region
    unpack_region-HasShape i (region first last) = set_loop_region-HasShape i first last
    unpack_region-HasShape i _ = search keeps_rules

    -- Assigning to an attribute of a voice, whatever its name and value, keeps the shape.
    pub setattr-HasShape : (i : ℕ) (k : String) (v : Value p) → Keeps (HasShape s) (setattr p i k v)
    unfolding setattr
    setattr-HasShape i k v =
        Keeps-if _ _ _ (unpack_region-HasShape i v) (set_property-HasShape i k v)

    pub voice_at-HasShape : (index : ℤ) → Keeps (HasShape s) (voice_at p index)
    unfolding voice_at or_raise
    voice_at-HasShape index = record { at = λ e h. h }

    cut_to-HasShape : (i : ℕ) (x : F) → Keeps (HasShape s) (modify (cut_to p i x))
    cut_to-HasShape i x = modify-HasShape _ (shape-cut_to i x)

    pub sync-HasShape :
        (follow lead : ℤ) (offset : F) → Keeps (HasShape s) (sync p follow lead offset)
    unfolding sync
    sync-HasShape follow lead offset = search (keeps_rules, voice_at-HasShape, cut_to-HasShape)

    pub set_feedback-HasShape :
        (src dst : ℤ) (amount : F) → Keeps (HasShape s) (set_feedback p src dst amount)
    unfolding set_feedback ◌>>=◌ shape
    set_feedback-HasShape src dst amount = record { at = λ e h. placed (fb_place p src dst e) e h }
      where
        placed :
            (r : Result ℕ) (e : Engine p)
            → HasShape s e
            → HasShape s
                (resume r (λ k. modify (λ e. record e { fb = set e.fb k (narrow amount) })) e).1
        placed (ok k) e h = record { same = rw length-set h.same }
        placed (err x) e h = h
