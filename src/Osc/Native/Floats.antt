-- ===== src/Osc/Native/Floats.antt =====
-- The float parameters of the native receiver, against the Python handlers of their addresses.
use softcut_py.Base.{
  ℕ, suc, ◌<◌, ◌≡◌, refl, sym, ◌∙◌, ap, arith, String, Bool, true, false, not, ◌&&◌, ◌||◌, Option,
  none, some, length, ◌==◌, string_eq, Option-cases, true-or_false, and-true, inl, inr,
  if◌then◌else◌,
}
use softcut_py.Base.Int.{ℤ, pos, negsuc, pos_part, ◌+ℤ◌, ◌-ℤ◌, ltb_ℤ, leb_ℤ, int_laws}
use softcut_py.Base.Dict.{lookup}
use softcut_py.Platform.{Platform}
use softcut_py.Voice.{contains, mix_props}
use softcut_py.Engine.{Engine, drain_commands}
use softcut_py.Engine.OscQueue.{IsQuiet, osc_store_param, osc_store_param-store_param}
use softcut_py.Norns.{Host, call_method, float_params}
use softcut_py.Norns.Tables.{entry_passes, call_method-stored}
use softcut_py.Norns.Setters.{call_method-refused}
use softcut_py.Osc
use softcut_py.Osc.{handlers}
use softcut_py.Osc.Native.{native_floats}

-- A float entry of the receiver names a property that the Python handler of its address sets too, by a
-- method whose property reaches the DSP voice.
sets : Option Osc.Route → String → Bool
sets (some (Osc.method name)) attr = sets_attr (lookup name float_params) attr
  where
    sets_attr : Option String → String → Bool
    sets_attr (some a) attr = a == attr
    sets_attr none attr = false
sets _ attr = false

sets-method :
    (o : Option Osc.Route) (attr : String)
    → sets o attr ≡ true
    → (name : String) × (o ≡ some (Osc.method name)) × (lookup name float_params ≡ some attr)
unfolding sets
sets-method (some (Osc.method name)) attr h = elim (Option-cases (lookup name float_params)) [
  | inl nothing ↦ absurd (true-or_false h (rw (nothing, sets) refl))
  | inr (a, found) ↦ (
    name,
    refl,
    found ∙ ap some ((string_eq.same_iff a attr).0 (sym (rw (found, sets) refl) ∙ h)),
  )
]
sets-method _ attr h = cc

float_entry : String → String → Bool
float_entry address attr = not (contains mix_props attr) && sets (lookup address handlers) attr

pub native_floats-method :
    (address attr : String)
    → lookup address native_floats ≡ some attr
    → (contains mix_props attr ≡ false)
      × ((name : String) × (lookup address handlers ≡ some (Osc.method name))
          × (lookup name float_params ≡ some attr))
unfolding float_entry sets contains
native_floats-method address attr found =
    let (dsp, route) = and-true (entry_passes float_entry native_floats address refl found) in
    (not_true dsp, sets-method (lookup address handlers) attr route)
  where
    not_true : {b : Bool} → not b ≡ true → b ≡ false
    not_true {b = true} h = cc
    not_true {b = false} h = refl

pred_suc_ℤ : (v : ℤ) → (v +ℤ pos 1) -ℤ pos 1 ≡ v
pred_suc_ℤ v = omega int_laws

pub suc_ℤ : (k : ℕ) → pos k +ℤ pos 1 ≡ pos (suc k)
suc_ℤ k = omega int_laws

module _ (p : Platform) where
  open p use {F, S, s_lit, s_eq, narrow, widen, of_int}

  -- The host once the audio thread has emptied the queues.
  abbrev pub host_drained : Host p → Host p
  host_drained h = record h { engine = drain_commands p h.engine }

  -- A voice number of a message that is no voice's.
  abbrev pub bad_voice : ℤ → ℕ → Bool
  bad_voice v n = ltb_ℤ v (pos 0) || leb_ℤ (pos n) v

  pub bad_voice-lt : (k n : ℕ) → bad_voice (pos k) n ≡ false → k < n
  bad_voice-lt k n h = ground arith

  pub refused_on_both :
      (v : ℤ) (h : Host p)
      → h.voices ≡ pos (length h.engine.voices)
      → bad_voice v (length h.engine.voices) ≡ true
      → ltb_ℤ ((v +ℤ pos 1) -ℤ pos 1) (pos 0) || leb_ℤ h.voices ((v +ℤ pos 1) -ℤ pos 1) ≡ true
  refused_on_both v h same bad = rw (pred_suc_ℤ v, same) bad

  pub stored_on_both :
      (name attr : String) (v : ℤ) (x : F) (raw : S) (h : Host p)
      → lookup name float_params ≡ some attr
      → contains mix_props attr ≡ false
      → narrow x ≡ raw
      → h.voices ≡ pos (length h.engine.voices)
      → IsQuiet p h.engine
      → host_drained (record h {
        engine =
            if bad_voice v (length h.engine.voices)
            then h.engine
            else osc_store_param p (pos_part v) attr raw h.engine;
      })
        ≡ host_drained (call_method p name (v +ℤ pos 1) x h).1
  stored_on_both name attr v x raw h named dsp exact same quiet =
      by_voice v (bad_voice v (length h.engine.voices)) refl
    where
      by_voice :
          (v : ℤ) (bad : Bool)
          → bad_voice v (length h.engine.voices) ≡ bad
          → host_drained (record h {
            engine =
                if bad_voice v (length h.engine.voices)
                then h.engine
                else osc_store_param p (pos_part v) attr raw h.engine;
          })
            ≡ host_drained (call_method p name (v +ℤ pos 1) x h).1
      by_voice v true bad =
          rw
            (
              bad,
              call_method-refused p name attr (v +ℤ pos 1) x h named (refused_on_both v h same bad),
            )
            refl
      by_voice (negsuc k) false good = absurd (ground arith)
      by_voice (pos k) false good =
          rw
            (
              good,
              suc_ℤ k,
              call_method-stored p name attr k x h named same (bad_voice-lt k _ good),
              exact,
              dsp,
            )
            (ap (λ (e : Engine p). record h { engine = e })
              (osc_store_param-store_param p k attr raw h.engine quiet))
