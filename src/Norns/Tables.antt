-- ===== src/Norns/Tables.antt =====
-- The tables of setters that src/softcut/norns.py generates its methods from, and what a call of such a
-- method does to the engine.
use softcut_py.Base.{
  and-true, ℕ, suc, ◌<◌, ◌≡◌, refl, ◌∙◌, ap, sym, subst, nat_eq, ◌&&◌, String, Bool, true, false,
  ◌||◌, some, [], ◌∷◌, length, arith, ◌==◌, string_eq, Bool-cases, some-injective, inl, inr,
  if◌then◌else◌,
}
use softcut_py.Base.Int.{ℤ, pos, ◌-ℤ◌, ltb_ℤ, leb_ℤ, suc-pred_ℤ}
use softcut_py.Base.Dict.{Dict, lookup}
use softcut_py.Base.Exec.{ok, err, ◌>>=◌, or_raise, index_error}
use softcut_py.Platform.{Platform}
use softcut_py.Voice.{with_param, contains, mix_props}
use softcut_py.Engine.{Engine, on_voice, num, store_param, voice_at}
use softcut_py.Engine.Attributes.{
  setattr, set_property, set_kind, kind_of, dsp_param, mix_param, Kind, unpack_region,
}
use softcut_py.Norns.{Host, voice, float_params, float_setter, call_method}

-- A test that every entry of a table passes is passed by one that is found.
module _ {ℓ} {V : Type ℓ} (test : String → V → Bool) where
  abbrev pub all_entries : Dict String V → Bool
  all_entries [] = true
  all_entries ((k, v) ∷ d) = test k v && all_entries d

  pub entry_passes :
      (d : Dict String V) (k : String) {v : V}
      → all_entries d ≡ true
      → lookup k d ≡ some v
      → test k v ≡ true
  entry_passes [] k h found = cc
  entry_passes ((j, w) ∷ d) k {v} h found = elim (Bool-cases (k == j)) [
    | inl e ↦
        subst (λ (u : V). test k u ≡ true) (same_value e)
          (subst (λ (i : String). test i w ≡ true) (sym ((string_eq.same_iff k j).0 e))
            (and-true h).0)
    | inr e ↦ entry_passes d k (and-true h).1 (sym (rw e refl) ∙ found)
  ]
    where
      same_value : (k == j) ≡ true → w ≡ v
      same_value e = some-injective w v (sym (rw e refl) ∙ found)

-- A float attribute of the tables has a setter that stores the number: in the mirror alone for those
-- of the mixer, and in the DSP voice too for the others.
StoresFloat : String → Type 0
StoresFloat attr =
    (kind_of attr ≡ (if contains mix_props attr then mix_param else dsp_param))
    × ((attr == "loop_region") ≡ false)

stores : Kind → Bool → Bool → Bool
stores mix_param true false = true
stores dsp_param false false = true
stores _ _ _ = false

stores-StoresFloat :
    (kind : Kind) (mix region : Bool)
    → stores kind mix region ≡ true
    → (kind ≡ (if mix then mix_param else dsp_param)) × (region ≡ false)
unfolding stores
stores-StoresFloat mix_param true false h = (refl, refl)
stores-StoresFloat dsp_param false false h = (refl, refl)
stores-StoresFloat _ _ _ h = cc

stores_entry : String → String → Bool
stores_entry name attr = stores (kind_of attr) (contains mix_props attr) (attr == "loop_region")

float_params-StoresFloat :
    (name attr : String) → lookup name float_params ≡ some attr → StoresFloat attr
unfolding kind_of contains StoresFloat stores stores_entry
float_params-StoresFloat name attr found =
    stores-StoresFloat (kind_of attr) (contains mix_props attr) (attr == "loop_region")
      (entry_passes stores_entry float_params name refl found)

module _ (p : Platform) where
  open p use {F, S, narrow}

  -- A voice number from 1 up to the number of voices stands for the place one less.
  pub voice-ok :
      (k : ℕ) (h : Host p)
      → h.voices ≡ pos (length h.engine.voices)
      → k < length h.engine.voices
      → voice p (pos (suc k)) h ≡ (ok k, h)
  unfolding voice voice_at or_raise
  voice-ok k h same lt = rw (suc-pred_ℤ k, same) (ground arith)

  -- Other numbers are refused, and nothing changes.
  pub voice-refused :
      (i : ℤ) (h : Host p)
      → ltb_ℤ (i -ℤ pos 1) (pos 0) || leb_ℤ h.voices (i -ℤ pos 1) ≡ true
      → voice p i h ≡ (err index_error, h)
  unfolding voice
  voice-refused i h bad = rw bad refl

  -- The new engine after a float attribute is set.
  abbrev pub stored : String → ℕ → S → Engine p → Engine p
  stored attr k x e =
      if contains mix_props attr
      then on_voice p k (with_param p attr x) e
      else store_param p k attr x e

  set_kind-num :
      (b : Bool) (attr : String) (k : ℕ) (x : F) (e : Engine p)
      → set_kind p (if b then mix_param else dsp_param) k attr (num x) e ≡ (
        ok tt,
        if b
            then on_voice p k (with_param p attr (narrow x)) e
            else store_param p k attr (narrow x) e,
      )
  unfolding set_kind ◌>>=◌
  set_kind-num true attr k x e = refl
  set_kind-num false attr k x e = refl

  set_float :
      (attr : String) (k : ℕ) (x : F) (e : Engine p)
      → StoresFloat attr
      → setattr p k attr (num x) e ≡ (ok tt, stored attr k (narrow x) e)
  unfolding setattr set_property StoresFloat
  set_float attr k x e (kind, plain) =
      ap
        (λ (b : Bool).
          (if b then unpack_region p k (num x) else set_kind p (kind_of attr) k attr (num x)) e)
        plain
      ∙ (ap (λ (c : Kind). set_kind p c k attr (num x) e) kind
          ∙ set_kind-num (contains mix_props attr) attr k x e)

  -- A float method of the tables, called with the number of a voice, stores the number in single
  -- precision.
  pub call_method-stored :
      (name attr : String) (k : ℕ) (x : F) (h : Host p)
      → lookup name float_params ≡ some attr
      → h.voices ≡ pos (length h.engine.voices)
      → k < length h.engine.voices
      → call_method p name (pos (suc k)) x h
        ≡ (ok tt, record h { engine = stored attr k (narrow x) h.engine })
  unfolding call_method float_setter ◌>>=◌
  call_method-stored name attr k x h found same lt =
      let e = set_float attr k x h.engine (float_params-StoresFloat name attr found) in
      rw (found, voice-ok k h same lt, e, call_method) refl
