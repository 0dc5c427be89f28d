-- ===== src/Demos/NornsApi/Writes.antt =====
-- Scripts on the norns facade of src/softcut/norns.py, by the parameters that they write: what a script
-- leaves in the mirrors, when the device is stopped.
use softcut_py.Base.{
  ℕ, suc, ◌+◌, ◌<◌, ◌≡◌, refl, ap, sym, subst, ◌∙◌, String, true, false, ◌&&◌, Option, some, List,
  [], ◌∷◌, ◌++◌, length, get_elem?, ◌==◌, nat_eq, string_eq, if◌then◌else◌, arith, Bool-cases, inl,
  inr,
}
use softcut_py.Base.Int.{ℤ, pos, int_eq}
use softcut_py.Base.Dict.{lookup}
use softcut_py.Base.Exec.{Exec, Result, ok, ◌>>=◌, ◌>>◌, for_each}
use softcut_py.Platform.{Platform, Command}
use softcut_py.Bits.{is_power_of_two}
use softcut_py.Voice.{contains, mix_props}
use softcut_py.Engine.{Engine, on_voice, dsp_apply, flag_apply, store_param}
use softcut_py.Engine.Shape
use softcut_py.Norns.{Host, float_params, call_method}
use softcut_py.Norns.Shape.{Layout, layout, call_method-HasLayout}
use softcut_py.Norns.Tables.{stored, call_method-stored}
use softcut_py.Norns.Setters.{mirror, replaced, call_method-mirror}

module _ (p : Platform) where
  open p use {F, S, narrow}

  pub running-dsp_apply :
      (i : ℕ) (c : Command S) (e : Engine p) → (dsp_apply p i c e).1.running ≡ e.running
  unfolding dsp_apply
  running-dsp_apply i c e = ground arith

  pub running-flag_apply :
      (i : ℕ) (c : Command S) (e : Engine p) → (flag_apply p i c e).running ≡ e.running
  unfolding flag_apply
  running-flag_apply i c e =
      ground
        (arith, running-dsp_apply i c (on_voice p i (λ v. record v { pending = v.pending + 1 }) e))

  running-stored :
      (attr : String) (k : ℕ) (x : S) (e : Engine p) → (stored p attr k x e).running ≡ e.running
  unfolding store_param
  running-stored attr k x e = elim (Bool-cases (contains mix_props attr)) [
    | inl mix ↦ rw (mix, stored) refl
    | inr dsp ↦ rw (dsp, stored) (running-dsp_apply k _ _)
  ]

  -- What a parameter reads after writes, the last of which counts.
  unfoldable pub written : List (ℕ × String × S) → ℕ → String → Option S → Option S
  written [] j a old = old
  written ((k, attr, x) ∷ ws) j a old =
      written ws j a (if (j == k) && (a == attr) then some x else old)

  pub written-append :
      (ws vs : List (ℕ × String × S)) (j : ℕ) (a : String) (old : Option S)
      → written (ws ++ vs) j a old ≡ written vs j a (written ws j a old)
  unfolding written
  written-append [] vs j a old = refl
  written-append ((k, attr, x) ∷ ws) vs j a old = written-append ws vs j a _

  -- The array of a buffer can be given to a voice.
  pub record HasBuffer (l : Layout F) (b : ℤ) : Type 0 where
    pub place : ℕ
    pub size : ℕ
    pub found : lookup b l.buf ≡ some place
    pub sized : get_elem? l.shape.array_lengths place ≡ some size
    pub usable : is_power_of_two size ≡ true

  -- A host with six voices and two buffers that voices take.
  pub record Studio (l : Layout F) : Type 0 where
    pub six : l.voices ≡ pos 6
    pub all_there : l.shape.voice_count ≡ 6
    pub first : HasBuffer l (pos 1)
    pub second : HasBuffer l (pos 2)

  pub record Ready (l : Layout F) (h : Host p) : Type 0 where
    pub laid : layout p h ≡ l
    pub idle : h.engine.running ≡ false

  -- The method returns, the host stays ready, and of the parameters just these are written.
  pub record Writes (l : Layout F) (ws : List (ℕ × String × S)) (m : Exec (Host p) Unit)
      : Type 0 where
    pub returns : (h : Host p) → Ready l h → (m h).0 ≡ ok tt
    pub stays : (h : Host p) → Ready l h → Ready l (m h).1
    pub shows :
        (h : Host p) (j : ℕ) (a : String)
        → Ready l h
        → mirror p j a (m h).1.engine ≡ written ws j a (mirror p j a h.engine)

  module _ {l : Layout F} where
    pub Writes-seq :
        (ws vs : List (ℕ × String × S)) (m n : Exec (Host p) Unit)
        → Writes l ws m
        → Writes l vs n
        → Writes l (ws ++ vs) (m >> n)
    unfolding ◌>>=◌
    Writes-seq ws vs m n w v = record {
      returns = λ h r. rw (w.returns h r) (v.returns (m h).1 (w.stays h r));
      stays = λ h r. rw (w.returns h r) (v.stays (m h).1 (w.stays h r));
      shows = λ h j a r. rw (w.returns h r) (
          v.shows (m h).1 j a (w.stays h r)
          ∙ ap (λ o. written vs j a o) (w.shows h j a r)
          ∙ sym (written-append ws vs j a (mirror p j a h.engine)));
    }

    -- A call that writes no parameter, before others.
    pub Writes-quiet :
        {vs : List (ℕ × String × S)} {m n : Exec (Host p) Unit}
        → Writes l [] m
        → Writes l vs n
        → Writes l vs (m >> n)
    Writes-quiet {vs} {m} {n} w v = Writes-seq [] vs m n w v

    pub Writes-nil : {A : Type 0} (f : A → Exec (Host p) Unit) → Writes l [] (for_each [] f)
    unfolding for_each written
    Writes-nil f = record { returns = λ h r. refl; stays = λ h r. r; shows = λ h j a r. refl }

    pub Writes-cons :
        {A : Type 0} (ws vs : List (ℕ × String × S)) (x : A) (xs : List A)
        (f : A → Exec (Host p) Unit)
        → Writes l ws (f x)
        → Writes l vs (for_each xs f)
        → Writes l (ws ++ vs) (for_each (x ∷ xs) f)
    unfolding for_each
    Writes-cons ws vs x xs f w v =
        let both = Writes-seq ws vs (f x) (for_each xs f) w v in
        record { returns = both.returns; stays = both.stays; shows = both.shows }

    module _ (studio : Studio l) where
      pub voices-Ready : (h : Host p) → Ready l h → h.voices ≡ pos (length h.engine.voices)
      unfolding Shape.shape
      voices-Ready h r =
          ap (λ (m : Layout F). m.voices) r.laid
          ∙ studio.six
          ∙ ap pos (sym (ap (λ (m : Layout F). m.shape.voice_count) r.laid ∙ studio.all_there))

      pub count-Ready : (h : Host p) → Ready l h → length h.engine.voices ≡ 6
      unfolding Shape.shape
      count-Ready h r = ap (λ (m : Layout F). m.shape.voice_count) r.laid ∙ studio.all_there

      pub Writes-float :
          (name attr : String) (k : ℕ) (x : F)
          → lookup name float_params ≡ some attr
          → k < 6
          → Writes l ((k, attr, narrow x) ∷ []) (call_method p name (pos (suc k)) x)
      unfolding written
      Writes-float name attr k x found lt = record {
        returns = λ h r. (both h r 0 "").0;
        stays = λ h r. record {
          laid =
              ((call_method-HasLayout p name (pos (suc k)) x).at h (record { same = r.laid })).same;
          idle =
              ap (λ (o : Result Unit × Host p). o.1.engine.running)
                (call_method-stored p name attr k x h found (voices-Ready h r) (inside h r))
              ∙ running-stored attr k (narrow x) h.engine
              ∙ r.idle;
        };
        shows = λ h j a r. (both h r j a).1;
      }
        where
          inside : (h : Host p) → Ready l h → k < length h.engine.voices
          inside h r = subst (λ n. k < n) (sym (count-Ready h r)) lt

          both :
              (h : Host p)
              → Ready l h
              → (j : ℕ) (a : String)
              → ((call_method p name (pos (suc k)) x h).0 ≡ ok tt)
                × (mirror p j a (call_method p name (pos (suc k)) x h).1.engine
                    ≡ replaced p k attr (narrow x) h.engine j a)
          both h r j a =
              let called =
                call_method-mirror p name attr k x h j a found (voices-Ready h r) (inside h r) in
              (called.0, called.1)
