-- ===== src/Demos/NornsApi/Routing.antt =====
-- `buffer(i, b)` of src/softcut/norns.py, on a stopped device.
use softcut_py.Base.{
  ℕ, zero, suc, ◌<◌, ◌≡◌, refl, ap, sym, subst, ◌∙◌, Bool, true, false, some, List, [], ◌∷◌, map,
  length, get_elem?, nat_eq, string_eq, if◌then◌else◌, not,
}
use softcut_py.Base.Int.{ℤ, pos, int_eq}
use softcut_py.Base.Dict.{lookup, insert}
use softcut_py.Base.Exec.{Result, ok, ◌>>=◌}
use softcut_py.Platform.{Platform, set_buffer}
use softcut_py.Bits.{is_power_of_two}
use softcut_py.Voice.{Voice, perform}
use softcut_py.Engine.{Engine, on_voice, set_voice_buffer, assign_array}
use softcut_py.Engine.Shape
use softcut_py.Engine.Views.{view-on_voice}
use softcut_py.Norns.{Host, buffer}
use softcut_py.Norns.Shape.{Layout, buffer-HasLayout}
use softcut_py.Norns.Tables.{voice-ok}
use softcut_py.Norns.Setters.{mirror}
use softcut_py.Base.Exec.{modify, gets, or_raise}
use softcut_py.Demos.NornsApi.Writes.{
  Writes, Ready, Studio, HasBuffer, voices-Ready, count-Ready, written,
}

get_elem?-map :
    {A : Type 0} (f : A → ℕ) (xs : List A) (i : ℕ) {n : ℕ}
    → get_elem? (map f xs) i ≡ some n
    → (x : A) × (get_elem? xs i ≡ some x) × (f x ≡ n)
get_elem?-map f [] i h = cc
get_elem?-map f (x ∷ xs) zero h = (x, refl, cc)
get_elem?-map f (x ∷ xs) (suc i) h = get_elem?-map f xs i h

module _ (p : Platform) where
  open p use {F, S, narrow}

  -- A voice that takes the array `a` of `n` frames.
  abbrev taking : ℕ → ℕ → Voice p → Voice p
  taking a n v = record (perform p (set_buffer a) v) { buffer = some a; frames = n }

  set_voice_buffer-idle :
      (k a : ℕ) (e : Engine p) (samples : List S)
      → get_elem? e.arrays a ≡ some samples
      → is_power_of_two (length samples) ≡ true
      → e.running ≡ false
      → set_voice_buffer p k a e ≡ (ok tt, on_voice p k (taking a (length samples)) e)
  unfolding set_voice_buffer assign_array
  set_voice_buffer-idle k a e samples found pow idle =
      rw (found, set_voice_buffer, pow) (if-idle e.running _ _ idle)
    where
      if-idle : {A : Type 0} (b : Bool) (x y : A) → b ≡ false → (if not b then x else y) ≡ x
      if-idle true x y h = cc
      if-idle false x y h = refl

  module _ {l : Layout F} (studio : Studio p l) (b : ℤ) (array : HasBuffer p l b) where
    -- The array that the buffer stands for.
    samples_of :
        (h : Host p)
        → Ready p l h
        → (xs : List S) × (get_elem? h.engine.arrays array.place ≡ some xs)
          × (is_power_of_two (length xs) ≡ true)
    unfolding Shape.shape
    samples_of h r =
        let (xs, found, size) = get_elem?-map length h.engine.arrays array.place (
          ap (λ (m : Layout F). get_elem? m.shape.array_lengths array.place) r.laid
          ∙ array.sized) in
        (xs, found, ap is_power_of_two size ∙ array.usable)

    routed : (k : ℕ) → Host p → List S → Host p
    routed k h xs = record h {
      engine = on_voice p k (taking array.place (length xs)) h.engine;
      assign = insert (pos (suc k)) b h.assign;
    }

    buffer-routed :
        (k : ℕ) (h : Host p) (r : Ready p l h)
        → k < 6
        → buffer p (pos (suc k)) b h ≡ (ok tt, routed k h (samples_of h r).0)
    unfolding buffer routed ◌>>=◌ gets or_raise modify
    buffer-routed k h r lt =
        let (xs, found, pow) = samples_of h r in
        let inside = subst (λ c. k < c) (sym (count-Ready p studio h r)) lt in
        rw
          (
            ap (λ (m : Layout F). lookup b m.buf) r.laid ∙ array.found,
            voice-ok p k h (voices-Ready p studio h r) inside,
            set_voice_buffer-idle k array.place h.engine xs found pow r.idle,
          )
          refl

    pub Writes-buffer : (k : ℕ) → k < 6 → Writes p l [] (buffer p (pos (suc k)) b)
    unfolding routed written perform
    Writes-buffer k lt = record {
      returns = λ h r. ap (λ (o : Result Unit × Host p). o.0) (buffer-routed k h r lt);
      stays = λ h r. record {
        laid = ((buffer-HasLayout p (pos (suc k)) b).at h (record { same = r.laid })).same;
        idle =
            ap (λ (o : Result Unit × Host p). o.1.engine.running) (buffer-routed k h r lt) ∙ r.idle;
      };
      shows = λ h j a r.
          ap (λ (o : Result Unit × Host p). mirror p j a o.1.engine) (buffer-routed k h r lt)
          ∙ view-on_voice p _ k j _ h.engine (λ v. refl);
    }
