-- ===== src/Osc/Native/Flags.antt =====
-- The flags of the native receiver, against the Python handlers of their addresses.
use softcut_py.Base.{
  ℕ, suc, ◌<◌, ◌≡◌, refl, sym, ◌∙◌, ap, String, Bool, true, false, ◌&&◌, Option, none, some, length,
  ◌==◌, string_eq, Bool-cases, Option-cases, true-or_false, and-true, inl, inr, if◌then◌else◌, ◌||◌,
  arith,
}
use softcut_py.Base.Int.{ℤ, pos, negsuc, pos_part, ◌+ℤ◌, ◌-ℤ◌, ltb_ℤ, leb_ℤ}
use softcut_py.Base.Dict.{lookup}
use softcut_py.Base.Exec.{ok, err, ◌>>=◌, index_error}
use softcut_py.Platform.{Platform, truthy}
use softcut_py.Engine.{Engine, flag, drain_commands, store_flag, set_rec, set_rec_once}
use softcut_py.Engine.Attributes.{
  Kind, plain_flag, rec_flag, rec_once_flag, kind_of, set_kind, set_property, setattr,
  unpack_region,
}
use softcut_py.Engine.OscQueue.{
  IsQuiet, osc_store_flag-store_flag, osc_set_rec-set_rec, osc_set_rec_once-set_rec_once,
}
use softcut_py.Norns.{Host, call_method, bool_setter, float_params, bool_params}
use softcut_py.Norns.Tables.{entry_passes, voice-ok, voice-refused}
use softcut_py.Osc
use softcut_py.Osc.{handlers}
use softcut_py.Osc.Native.{native_flags, fast_flag}
use softcut_py.Osc.Native.Floats.{bad_voice, bad_voice-lt, host_drained, refused_on_both, suc_ℤ}

-- The setter of a flag, by its kind and by what its name is.
sets_kind : Kind → Bool → Bool → Bool → Bool
sets_kind rec_flag true once false = true
sets_kind rec_once_flag false true false = true
sets_kind plain_flag false false false = true
sets_kind _ _ _ _ = false

-- The method of the route is in the flag table alone, with the property `attr`.
sets : Option Osc.Route → String → Bool
sets (some (Osc.method name)) attr =
    only_flag (lookup name float_params) (lookup name bool_params) attr
  where
    only_flag : Option String → Option String → String → Bool
    only_flag none (some a) attr = a == attr
    only_flag _ _ attr = false
sets _ attr = false

sets-method :
    (o : Option Osc.Route) (attr : String)
    → sets o attr ≡ true
    → (name : String) × (o ≡ some (Osc.method name))
      × (lookup name float_params ≡ none)
      × (lookup name bool_params ≡ some attr)
unfolding sets
sets-method (some (Osc.method name)) attr h = elim (Option-cases (lookup name float_params)) [
  | inl no_float ↦ elim (Option-cases (lookup name bool_params)) [
    | inl nothing ↦ absurd (true-or_false h (rw (no_float, nothing, sets) refl))
    | inr (a, found) ↦ (
      name,
      refl,
      no_float,
      found ∙ ap some ((string_eq.same_iff a attr).0 (sym (rw (no_float, found, sets) refl) ∙ h)),
    )
  ]
  | inr (a, float) ↦ absurd (true-or_false h (rw (float, sets) refl))
]
sets-method _ attr h = cc

flag_entry : String → String → Bool
flag_entry address attr =
    sets_kind (kind_of attr) (attr == "rec") (attr == "rec_once") (attr == "loop_region")
    && sets (lookup address handlers) attr

native_flags-passes :
    (address attr : String)
    → lookup address native_flags ≡ some attr
    → flag_entry address attr ≡ true
unfolding flag_entry sets kind_of sets_kind
native_flags-passes address attr found = entry_passes flag_entry native_flags address refl found

pub native_flags-method :
    (address attr : String)
    → lookup address native_flags ≡ some attr
    → (name : String) × (lookup address handlers ≡ some (Osc.method name))
      × (lookup name float_params ≡ none)
      × (lookup name bool_params ≡ some attr)
unfolding flag_entry
native_flags-method address attr found =
    sets-method (lookup address handlers) attr (and-true (native_flags-passes address attr found)).1

native_flags-kind :
    (address attr : String)
    → lookup address native_flags ≡ some attr
    → sets_kind (kind_of attr) (attr == "rec") (attr == "rec_once") (attr == "loop_region") ≡ true
unfolding flag_entry
native_flags-kind address attr found = (and-true (native_flags-passes address attr found)).0

module _ (p : Platform) where
  open p use {F, S}

  -- What the Python setter of a flag does.
  abbrev python_flag : ℕ → String → Bool → Engine p → Engine p
  python_flag k attr x e =
      if attr == "rec"
      then set_rec p k x e
      else if attr == "rec_once"
      then set_rec_once p k x e
      else store_flag p k attr x e

  set_kind-flag :
      (kind : Kind) (rec once region : Bool) (k : ℕ) (attr : String) (x : Bool) (e : Engine p)
      → sets_kind kind rec once region ≡ true
      → (if region then unpack_region p k (flag x) else set_kind p kind k attr (flag x)) e ≡ (
        ok tt,
        if rec
            then set_rec p k x e
            else if once
            then set_rec_once p k x e
            else store_flag p k attr x e,
      )
  unfolding sets_kind set_kind ◌>>=◌
  set_kind-flag rec_flag true once false k attr x e h = refl
  set_kind-flag rec_once_flag false true false k attr x e h = refl
  set_kind-flag plain_flag false false false k attr x e h = refl
  set_kind-flag _ _ _ _ k attr x e h = cc

  setattr-flag :
      (address attr : String) (k : ℕ) (x : Bool) (e : Engine p)
      → lookup address native_flags ≡ some attr
      → setattr p k attr (flag x) e ≡ (ok tt, python_flag k attr x e)
  unfolding setattr set_property
  setattr-flag address attr k x e found =
      set_kind-flag (kind_of attr) (attr == "rec") (attr == "rec_once") (attr == "loop_region") k
        attr x e (native_flags-kind address attr found)

  fast_flag-python_flag :
      (k : ℕ) (attr : String) (x : Bool) (e : Engine p)
      → IsQuiet p e
      → drain_commands p (fast_flag p k attr x e) ≡ drain_commands p (python_flag k attr x e)
  unfolding fast_flag
  fast_flag-python_flag k attr x e quiet = elim (Bool-cases (attr == "rec")) [
    | inl is_rec ↦ rw is_rec (osc_set_rec-set_rec p k x e quiet)
    | inr not_rec ↦ elim (Bool-cases (attr == "rec_once")) [
      | inl is_once ↦ rw (not_rec, is_once) (osc_set_rec_once-set_rec_once p k x e quiet)
      | inr plain ↦ rw (not_rec, plain) (osc_store_flag-store_flag p k attr x e quiet)
    ]
  ]

  call_flag :
      (address name attr : String) (k : ℕ) (x : F) (h : Host p)
      → lookup address native_flags ≡ some attr
      → lookup name float_params ≡ none
      → lookup name bool_params ≡ some attr
      → h.voices ≡ pos (length h.engine.voices)
      → k < length h.engine.voices
      → call_method p name (pos (suc k)) x h
        ≡ (ok tt, record h { engine = python_flag k attr (truthy p x) h.engine })
  unfolding call_method bool_setter ◌>>=◌
  call_flag address name attr k x h found no_float named same lt =
      let e = setattr-flag address attr k (truthy p x) h.engine found in
      rw (no_float, named, voice-ok p k h same lt, e, call_method) refl

  call_flag-refused :
      (name attr : String) (i : ℤ) (x : F) (h : Host p)
      → lookup name float_params ≡ none
      → lookup name bool_params ≡ some attr
      → ltb_ℤ (i -ℤ pos 1) (pos 0) || leb_ℤ h.voices (i -ℤ pos 1) ≡ true
      → call_method p name i x h ≡ (err index_error, h)
  unfolding call_method bool_setter ◌>>=◌
  call_flag-refused name attr i x h no_float named bad =
      rw (no_float, named, voice-refused p i h bad, call_method) refl

  pub flagged_on_both :
      (address name attr : String) (v : ℤ) (x : F) (raw : Bool) (h : Host p)
      → lookup address native_flags ≡ some attr
      → lookup name float_params ≡ none
      → lookup name bool_params ≡ some attr
      → truthy p x ≡ raw
      → h.voices ≡ pos (length h.engine.voices)
      → IsQuiet p h.engine
      → host_drained p (record h {
        engine =
            if bad_voice p v (length h.engine.voices)
            then h.engine
            else fast_flag p (pos_part v) attr raw h.engine;
      })
        ≡ host_drained p (call_method p name (v +ℤ pos 1) x h).1
  flagged_on_both address name attr v x raw h found no_float named exact same quiet =
      by_voice v (bad_voice p v (length h.engine.voices)) refl
    where
      by_voice :
          (v : ℤ) (bad : Bool)
          → bad_voice p v (length h.engine.voices) ≡ bad
          → host_drained p (record h {
            engine =
                if bad_voice p v (length h.engine.voices)
                then h.engine
                else fast_flag p (pos_part v) attr raw h.engine;
          })
            ≡ host_drained p (call_method p name (v +ℤ pos 1) x h).1
      by_voice v true bad =
          rw
            (
              bad,
              call_flag-refused name attr (v +ℤ pos 1) x h no_float named
                  (refused_on_both p v h same bad),
            )
            refl
      by_voice (negsuc k) false good = absurd (ground arith)
      by_voice (pos k) false good =
          rw
            (
              good,
              suc_ℤ k,
              call_flag address name attr k x h found no_float named same (bad_voice-lt p k _ good),
              exact,
            )
            (ap (λ (e : Engine p). record h { engine = e })
              (fast_flag-python_flag k attr raw h.engine quiet))
