-- ===== src/Engine/Attributes.antt =====
-- Assignment to the attributes of a voice, and the methods that src/softcut/__init__.py adds to it.
use softcut_py.Base.{
  ℕ, String, Bool, true, false, Option, none, some, List, [], ◌∷◌, ◌==◌, string_eq, if◌then◌else◌,
  get_elem?,
}
use softcut_py.Base.Int.{pos}
use softcut_py.Base.Dict.{Dict}
use softcut_py.Base.Exec.{
  Exec, Result, ok, err, raise, lift, ◌>>=◌, ◌>>◌, modify, for_each, value_error, type_error,
  attribute_error,
}
use softcut_py.Platform.{Platform, set_fade_shape, set_sample_rate}
use softcut_py.Voice.{contains, param_props, mix_props, flag_props, with_param}
use softcut_py.Engine.{
  Engine, Value, num, flag, text, arr, region, on_voice, dsp_apply, store_param, store_flag,
  set_rec, set_rec_once, cut_to, set_voice_buffer,
}

abbrev pub shape_props : List String
shape_props = "rec_fade_shape" ∷ "pre_fade_shape" ∷ []

abbrev pub fade_shapes : List String
fade_shapes = "linear" ∷ "sine" ∷ "raised" ∷ []

-- The kinds of attribute, by their setters.
pub data Kind : Type 0 where
  dsp_param mix_param plain_flag rec_flag rec_once_flag fade_shape array_ref voice_rate no_setter :
      Kind

unfoldable pub kind_of : String → Kind
unfolding contains
kind_of k =
    if contains param_props k
    then dsp_param
    else if contains mix_props k
    then mix_param
    else if contains flag_props k
    then plain_flag
    else if k == "rec"
    then rec_flag
    else if k == "rec_once"
    then rec_once_flag
    else if contains shape_props k
    then fade_shape
    else if k == "buffer"
    then array_ref
    else if k == "sample_rate"
    then voice_rate
    else no_setter

module _ (p : Platform) where
  open p use {F, S, s_lit, narrow, widen}

  -- What the binding takes where it wants a `float`: a Python bool is a number too.
  abbrev pub as_float : Value p → Result S
  as_float (num x) = ok (narrow x)
  as_float (flag b) = ok (s_lit (pos (if b then 1 else 0)))
  as_float _ = err type_error

  -- What it takes where it wants a `bool`: True and False alone.
  abbrev pub as_bool : Value p → Result Bool
  as_bool (flag b) = ok b
  as_bool _ = err type_error

  unfoldable pub set_fade : ℕ → String → Value p → Exec (Engine p) Unit
  unfolding dsp_apply
  set_fade i k (text name) e =
      if contains fade_shapes name
      then (ok tt, (dsp_apply p i (set_fade_shape k name) e).1)
      else (err value_error, e)
  set_fade i k _ e = (err type_error, e)

  -- Whatever is no float32 array is refused.
  unfoldable pub set_array : ℕ → Value p → Exec (Engine p) Unit
  unfolding set_voice_buffer
  set_array i (arr a) = set_voice_buffer p i a
  set_array i _ = raise type_error

  -- `set_sample_rate`
  unfoldable pub store_sample_rate : ℕ → S → Engine p → Engine p
  unfolding dsp_apply
  store_sample_rate i x e =
      (dsp_apply p i (set_sample_rate x) (on_voice p i (λ v. record v { sample_rate = x }) e)).1

  -- The setter of a property of the given kind.
  unfoldable pub set_kind : Kind → ℕ → String → Value p → Exec (Engine p) Unit
  unfolding store_param store_flag set_rec set_rec_once set_array set_fade store_sample_rate
  set_kind dsp_param i k v = lift (as_float v) >>= λ x. modify (store_param p i k x)
  set_kind mix_param i k v = lift (as_float v) >>= λ x. modify (on_voice p i (with_param p k x))
  set_kind plain_flag i k v = lift (as_bool v) >>= λ x. modify (store_flag p i k x)
  set_kind rec_flag i k v = lift (as_bool v) >>= λ x. modify (set_rec p i x)
  set_kind rec_once_flag i k v = lift (as_bool v) >>= λ x. modify (set_rec_once p i x)
  set_kind fade_shape i k v = set_fade i k v
  set_kind array_ref i k v = set_array i v
  set_kind voice_rate i k v = lift (as_float v) >>= λ x. modify (store_sample_rate i x)
  set_kind no_setter i k v = raise attribute_error

  -- `setattr` of the properties of the binding.
  unfoldable pub set_property : ℕ → String → Value p → Exec (Engine p) Unit
  unfolding set_kind kind_of
  set_property i k v = set_kind (kind_of k) i k v

  -- `_voice_set_loop_region`: the two loop points, and the loop on.
  unfoldable pub set_loop_region : ℕ → F → F → Exec (Engine p) Unit
  unfolding set_property
  set_loop_region i first last = do
    set_property i "loop_start" (num first)
    set_property i "loop_end" (num last)
    set_property i "loop" (flag true)

  -- `_voice_get_loop_region`
  unfoldable pub get_loop_region : ℕ → Engine p → Option (F × F)
  get_loop_region i e = elim (get_elem? e.voices i) [
    | none ↦ none
    | some v ↦ some (widen (v.params "loop_start"), widen (v.params "loop_end"))
  ]

  -- The setter of `loop_region`. Unpacking what is no pair of floats raises TypeError.
  unfoldable pub unpack_region : ℕ → Value p → Exec (Engine p) Unit
  unfolding set_loop_region
  unpack_region i (region first last) = set_loop_region i first last
  unpack_region i _ = raise type_error

  -- `setattr(voice, key, value)`, with the property that Python adds.
  unfoldable pub setattr : ℕ → String → Value p → Exec (Engine p) Unit
  unfolding set_property unpack_region
  setattr i k v = if k == "loop_region" then unpack_region i v else set_property i k v

  -- `_voice_configure`
  unfoldable pub configure : ℕ → Dict String (Value p) → Exec (Engine p) Unit
  unfolding setattr
  configure i params = for_each params (λ (k, v). setattr i k v)

  -- The entry of `_voice_record` and of `_voice_record_for`.
  unfoldable pub begin_record : ℕ → Option F → Exec (Engine p) Unit
  unfolding set_property cut_to
  begin_record i none = do set_property i "play" (flag true); set_property i "rec" (flag true)
  begin_record i (some at) = do
    modify (cut_to p i at)
    set_property i "play" (flag true)
    set_property i "rec" (flag true)

  -- `try: body finally: self.rec = False`
  unfoldable pub end_record : {A : Type 0} → ℕ → Exec (Engine p) A → Exec (Engine p) A
  unfolding set_rec
  end_record i body e = ((body e).0, set_rec p i false (body e).1)

  -- `with voice.record(at): body`; the body of `record_for` is its sleep.
  unfoldable pub with_record : {A : Type 0} → ℕ → Option F → Exec (Engine p) A → Exec (Engine p) A
  unfolding begin_record end_record
  with_record i at body = begin_record i at >> end_record i body
