-- ===== src/Demos/NornsApi/Quiet.antt =====
-- Calls on the norns facade of src/softcut/norns.py that write no parameter.
use softcut_py.Base.{
  ℕ, suc, ◌<◌, ◌≡◌, refl, ap, sym, subst, ◌∙◌, String, Bool, true, false, [], nat_eq, string_eq,
}
use softcut_py.Base.Int.{pos, int_eq}
use softcut_py.Base.Exec.{Exec, Result, ok, ◌>>=◌}
use softcut_py.Platform.{Platform}
use softcut_py.Voice.{with_flag, contains}
use softcut_py.Engine.{Engine, store_flag, set_rec, cut_to}
use softcut_py.Engine.Views.{view-on_voice, view-dsp_apply, view-flag_apply, param-Mirrored}
use softcut_py.Norns.{Host, position, bool_setter}
use softcut_py.Norns.Shape.{Layout, layout, bool_setter-HasLayout, position-HasLayout}
use softcut_py.Norns.Tables.{voice-ok}
use softcut_py.Norns.Setters.{mirror}
use softcut_py.Engine.Attributes.{setattr, set_property, set_kind, kind_of}
use softcut_py.Norns.{voice, on_engine}
use softcut_py.Base.Exec.{modify, lift}
use softcut_py.Engine.{flag}
use softcut_py.Demos.NornsApi.Writes.{
  Writes, Ready, Studio, voices-Ready, count-Ready, written, running-dsp_apply, running-flag_apply,
}

module _ (p : Platform) where
  open p use {F, S, narrow}

  -- A method of the engine that returns and leaves the parameters, when the device is stopped.
  record IsQuiet (m : Exec (Engine p) Unit) : Type 0 where
    done : (e : Engine p) → e.running ≡ false → (m e).0 ≡ ok tt
    still : (e : Engine p) → e.running ≡ false → (m e).1.running ≡ false
    same :
        (e : Engine p) (j : ℕ) (a : String)
        → e.running ≡ false
        → mirror p j a (m e).1 ≡ mirror p j a e

  store_flag-IsQuiet : (k : ℕ) (name : String) (x : Bool) → IsQuiet (modify (store_flag p k name x))
  unfolding modify store_flag
  store_flag-IsQuiet k name x = record {
    done = λ e h. refl;
    still = λ e h. running-dsp_apply p k _ _ ∙ h;
    same = λ e j a h.
        view-dsp_apply p _ (param-Mirrored p a) k j _ _
        ∙ view-on_voice p _ k j (with_flag p name x) e (λ v. refl);
  }

  set_rec-IsQuiet : (k : ℕ) (x : Bool) → IsQuiet (modify (set_rec p k x))
  unfolding modify set_rec
  set_rec-IsQuiet k true = record {
    done = λ e h. refl;
    still = λ e h. running-flag_apply p k _ _ ∙ h;
    same = λ e j a h.
        view-flag_apply p _ (param-Mirrored p a) k j _ _
        ∙ view-on_voice p _ k j (with_flag p "rec" true) e (λ v. refl);
  }
  set_rec-IsQuiet k false = record {
    done = λ e h. refl;
    still = λ e h. running-flag_apply p k _ _ ∙ h;
    same = λ e j a h.
        view-flag_apply p _ (param-Mirrored p a) k j _ _
        ∙ view-on_voice p _ k j (with_flag p "rec_once" false) _ (λ v. refl)
        ∙ view-on_voice p _ k j (with_flag p "rec" false) e (λ v. refl);
  }

  cut_to-IsQuiet : (k : ℕ) (x : F) → IsQuiet (modify (cut_to p k x))
  unfolding modify cut_to
  cut_to-IsQuiet k x = record {
    done = λ e h. refl;
    still = λ e h. running-dsp_apply p k _ _ ∙ h;
    same = λ e j a h. view-dsp_apply p _ (param-Mirrored p a) k j _ _;
  }

  setattr-play : (k : ℕ) (x : Bool) → setattr p k "play" (flag x) ≡ modify (store_flag p k "play" x)
  unfolding setattr set_property set_kind kind_of contains ◌>>=◌ lift modify
  setattr-play k x = refl

  setattr-loop : (k : ℕ) (x : Bool) → setattr p k "loop" (flag x) ≡ modify (store_flag p k "loop" x)
  unfolding setattr set_property set_kind kind_of contains ◌>>=◌ lift modify
  setattr-loop k x = refl

  setattr-rec : (k : ℕ) (x : Bool) → setattr p k "rec" (flag x) ≡ modify (set_rec p k x)
  unfolding setattr set_property set_kind kind_of contains ◌>>=◌ lift modify
  setattr-rec k x = refl

  module _ {l : Layout F} (studio : Studio p l) where
    -- A quiet method of the engine, on a voice by its number.
    Writes-voice :
        (k : ℕ) (m : ℕ → Exec (Engine p) Unit) (n : Exec (Host p) Unit)
        → n ≡ (voice p (pos (suc k)) >>= λ v. on_engine p (m v))
        → k < 6
        → IsQuiet (m k)
        → ((h : Host p) → layout p h ≡ l → layout p (n h).1 ≡ l)
        → Writes p l [] n
    unfolding ◌>>=◌ written
    Writes-voice k m n same_call lt q keep = record {
      returns = λ h r. ap (λ (o : Result Unit × Host p). o.0) (run h r) ∙ q.done h.engine r.idle;
      stays = λ h r. record {
        laid = keep h r.laid;
        idle =
            ap (λ (o : Result Unit × Host p). o.1.engine.running) (run h r)
            ∙ q.still h.engine r.idle;
      };
      shows = λ h j a r.
          ap (λ (o : Result Unit × Host p). mirror p j a o.1.engine) (run h r)
          ∙ q.same h.engine j a r.idle;
    }
      where
        run : (h : Host p) → Ready p l h → n h ≡ on_engine p (m k) h
        run h r = rw same_call (
            rw
              (voice-ok p k h (voices-Ready p studio h r)
                (subst (λ c. k < c) (sym (count-Ready p studio h r)) lt))
              refl)

    bool-Writes :
        (attr : String) (k : ℕ) (x : Bool) (f : ℕ → Exec (Engine p) Unit)
        → ((v : ℕ) → setattr p v attr (flag x) ≡ f v)
        → k < 6
        → IsQuiet (f k)
        → Writes p l [] (bool_setter p attr (pos (suc k)) x)
    unfolding bool_setter
    bool-Writes attr k x f same_call lt q =
        Writes-voice k (λ v. setattr p v attr (flag x)) _ refl lt
          (subst IsQuiet (sym (same_call k)) q)
          (λ h e. ((bool_setter-HasLayout p attr (pos (suc k)) x).at h (record { same = e })).same)

    pub Writes-play :
        (k : ℕ) (x : Bool) → k < 6 → Writes p l [] (bool_setter p "play" (pos (suc k)) x)
    Writes-play k x lt =
        bool-Writes "play" k x _ (λ v. setattr-play v x) lt (store_flag-IsQuiet k "play" x)

    pub Writes-loop :
        (k : ℕ) (x : Bool) → k < 6 → Writes p l [] (bool_setter p "loop" (pos (suc k)) x)
    Writes-loop k x lt =
        bool-Writes "loop" k x _ (λ v. setattr-loop v x) lt (store_flag-IsQuiet k "loop" x)

    pub Writes-rec :
        (k : ℕ) (x : Bool) → k < 6 → Writes p l [] (bool_setter p "rec" (pos (suc k)) x)
    Writes-rec k x lt = bool-Writes "rec" k x _ (λ v. setattr-rec v x) lt (set_rec-IsQuiet k x)

    pub Writes-position : (k : ℕ) (x : F) → k < 6 → Writes p l [] (position p (pos (suc k)) x)
    unfolding position
    Writes-position k x lt =
        Writes-voice k (λ v. modify (cut_to p v x)) _ refl lt (cut_to-IsQuiet k x)
          (λ h e. ((position-HasLayout p (pos (suc k)) x).at h (record { same = e })).same)
