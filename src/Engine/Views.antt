-- ===== src/Engine/Views.antt =====
-- What a property of a voice shows across the calls that only touch the DSP voice, the counters and
-- the arrays.
use softcut_py.Base.{
  ℕ, zero, suc, ◌+◌, ◌-◌, ◌≡◌, refl, ◌∙◌, ap, String, Bool, false, Option, some, List, [], ◌∷◌,
  length, get_elem?, string_eq, Bool-cases, inl, inr, ltb,
}
use mathlib.Core.Option
use softcut_py.Base.Dict.{Dict}
use softcut_py.Base.Exec.{Exec}
use softcut_py.Platform.{Platform, Command}
use softcut_py.Voice.{Voice, perform}
use softcut_py.Engine.{Engine, update_at, on_voice, dsp_apply, flag_apply, queue_room, set_rec}
use softcut_py.Engine.Attributes.{end_record}

get_elem?-update_self {ℓ} :
    {A : Type ℓ} (xs : List A) (i : ℕ) (f : A → A)
    → get_elem? (update_at i f xs) i ≡ Option.map f (get_elem? xs i)
get_elem?-update_self [] i f = refl
get_elem?-update_self (x ∷ xs) zero f = refl
get_elem?-update_self (x ∷ xs) (suc i) f = get_elem?-update_self xs i f

-- The names that a table has.
abbrev keys {ℓ} : {V : Type ℓ} → Dict String V → List String
keys [] = []
keys ((k, v) ∷ d) = k ∷ keys d

module _ (p : Platform) {X : Type 0} (g : Voice p → X) where
  -- What `g` reads of voice `i`, where there is such a voice.
  unfoldable pub view : ℕ → Engine p → Option X
  view i e = Option.map g (get_elem? e.voices i)

  pub view-on_voice :
      (i j : ℕ) (f : Voice p → Voice p) (e : Engine p)
      → ((v : Voice p) → g (f v) ≡ g v)
      → view j (on_voice p i f e) ≡ view j e
  unfolding view
  view-on_voice i j f e same = from_voices e.voices i j
    where
      from_voices :
          (vs : List (Voice p)) (i j : ℕ)
          → Option.map g (get_elem? (update_at i f vs) j) ≡ Option.map g (get_elem? vs j)
      from_voices [] i j = refl
      from_voices (v ∷ vs) zero zero = ap (λ (x : X). some x) (same v)
      from_voices (v ∷ vs) zero (suc j) = refl
      from_voices (v ∷ vs) (suc i) zero = refl
      from_voices (v ∷ vs) (suc i) (suc j) = from_voices vs i j

  -- `g` reads neither the DSP voice nor the counters of a voice.
  pub record Mirrored : Type 0 where
    pub performed : (c : Command p.S) (v : Voice p) → g (perform p c v) ≡ g v
    pub counted : (n m : ℕ) (v : Voice p) → g (record v { pending = n; dropped = m }) ≡ g v

  module _ (mirrored : Mirrored) where
    pub view-dsp_apply :
        (i j : ℕ) (c : Command p.S) (e : Engine p) → view j (dsp_apply p i c e).1 ≡ view j e
    unfolding dsp_apply view
    view-dsp_apply i j c e = elim (Bool-cases e.running) [
      | inl run ↦ elim (Bool-cases (ltb (length e.queue) queue_room)) [
        | inl room ↦ rw (run, room, dsp_apply) refl
        | inr full ↦
            rw (run, full, dsp_apply)
              (view-on_voice i j _ e (λ v. mirrored.counted v.pending (v.dropped + 1) v))
      ]
      | inr idle ↦ rw (idle, dsp_apply) (view-on_voice i j _ e (mirrored.performed c))
    ]

    pub view-flag_apply :
        (i j : ℕ) (c : Command p.S) (e : Engine p) → view j (flag_apply p i c e) ≡ view j e
    unfolding flag_apply
    view-flag_apply i j c e =
        let e1 = on_voice p i (λ v. record v { pending = v.pending + 1 }) e in
        let e2 = (dsp_apply p i c e1).1 in
        let first =
          view-on_voice i j (λ v. record v { pending = v.pending + 1 }) e
            (λ v. mirrored.counted (v.pending + 1) v.dropped v) in
        let second = view-dsp_apply i j c e1 in
        elim (Bool-cases (dsp_apply p i c e1).0) [
          | inl sent ↦ rw (sent, flag_apply) (second ∙ first)
          | inr lost ↦
              rw (lost, flag_apply)
                (view-on_voice i j (λ v. record v { pending = v.pending - 1 }) e2
                    (λ v. mirrored.counted (v.pending - 1) v.dropped v)
                  ∙ second
                  ∙ first)
        ]

module _ (p : Platform) where
  open p use {S, s_lit}

  -- The mirror of a flag, and that of a parameter.
  abbrev pub flag_at : String → ℕ → Engine p → Option Bool
  flag_at k = view p (λ v. v.flags k)

  abbrev pub param_at : String → ℕ → Engine p → Option S
  param_at k = view p (λ v. v.params k)

  pub flag-Mirrored : (k : String) → Mirrored p (λ v. v.flags k)
  unfolding perform
  flag-Mirrored k = record { performed = λ c v. refl; counted = λ n m v. refl }

  pub param-Mirrored : (k : String) → Mirrored p (λ v. v.params k)
  unfolding perform
  param-Mirrored k = record { performed = λ c v. refl; counted = λ n m v. refl }

  module _ {X : Type 0} (g : Voice p → X) where
    view-on_voice_self :
        (i : ℕ) (f : Voice p → Voice p) (e : Engine p)
        → view p g i (on_voice p i f e) ≡ view p (λ v. g (f v)) i e
    unfolding view
    view-on_voice_self i f e = from_voices e.voices i
      where
        from_voices :
            (vs : List (Voice p)) (i : ℕ)
            → Option.map g (get_elem? (update_at i f vs) i)
              ≡ Option.map (λ v. g (f v)) (get_elem? vs i)
        from_voices [] i = refl
        from_voices (v ∷ vs) zero = refl
        from_voices (v ∷ vs) (suc i) = from_voices vs i

  -- Leaving `with voice.record(...)`: whatever the body did to the engine, and whether it returned or
  -- raised, its result passes through, and the mirrors of `rec` and of `rec_once` of the voice are false,
  -- if there still is a voice at its place.
  pub end_record-stops :
      {A : Type 0} (i : ℕ) (body : Exec (Engine p) A) (e : Engine p)
      → ((end_record p i body e).0 ≡ (body e).0)
        × (flag_at "rec" i (end_record p i body e).1 ≡ view p (λ v. false) i (body e).1)
        × (flag_at "rec_once" i (end_record p i body e).1 ≡ view p (λ v. false) i (body e).1)
  unfolding end_record set_rec
  end_record-stops i body e = (
    refl,
    view-flag_apply p _ (flag-Mirrored "rec") i i _ _
        ∙ (view-on_voice p _ i i _ _ (λ v. refl) ∙ view-on_voice_self _ i _ _),
    view-flag_apply p _ (flag-Mirrored "rec_once") i i _ _
        ∙ (view-on_voice_self _ i _ _ ∙ view-on_voice p (λ v. false) i i _ _ (λ v. refl)),
  )
