-- ===== src/Osc/Routes.antt =====
-- Which method of the host a message reaches, and the transports that a server can be made with.
use softcut_py.Base.{
  and-true, ℕ, suc, ◌<◌, length, ◌≡◌, refl, String, Bool, true, false, Option, none, some, List,
  ◌∷◌, string_eq, ◌||◌, ◌&&◌, ◌==◌, ap,
}
use softcut_py.Base.Int.{ℤ, pos, ◌+ℤ◌, int_laws}
use softcut_py.Base.Dict.{lookup}
use softcut_py.Base.Exec.{◌>>=◌}
use Prim.Native.String
use softcut_py.Platform.{Platform}
use softcut_py.Norns.{call_method, float_params, bool_params}
use softcut_py.Norns.Setters.{mirror, replaced, KeepsRest, call_method-mirror}
use softcut_py.Norns.Tables.{entry_passes}
use softcut_py.Osc
use softcut_py.Osc.{param_map, handlers}

abbrev pub param_address : String → String
param_address suffix = String.◌++◌ "/set/param/cut/" suffix

abbrev is_some {ℓ} : {A : Type ℓ} → Option A → Bool
is_some none = false
is_some (some a) = true

abbrev pub is_method : String → Bool
is_method name =
    is_some (lookup name float_params)
    || (is_some (lookup name bool_params) || (name == "position"))

-- The route is that of a method, of the given name.
abbrev pub names : Option Osc.Route → String → Bool
names (some (Osc.method m)) name = m == name
names _ name = false

pub names-method :
    (o : Option Osc.Route) (name : String) → names o name ≡ true → o ≡ some (Osc.method name)
names-method (some (Osc.method m)) name h =
    ap (λ (n : String). some (Osc.method n)) ((string_eq.same_iff m name).0 h)
names-method _ name h = cc

-- An entry of the parameter table is an entry of the dispatch table, and its method is one of the host.
routed : String → String → Bool
routed suffix name = is_method name && names (lookup (param_address suffix) handlers) name

pub param_map-method :
    (suffix name : String)
    → lookup suffix param_map ≡ some name
    → lookup (param_address suffix) handlers ≡ some (Osc.method name)
unfolding routed
param_map-method suffix name found =
    names-method (lookup (param_address suffix) handlers) name
      (and-true (entry_passes routed param_map suffix refl found)).1

module _ (p : Platform) where
  open p use {F}

  pub dispatch-method :
      (address name : String) (v : ℤ) (x : F) (rest : List (Osc.Arg p)) (s : Osc.Server p)
      → lookup address handlers ≡ some (Osc.method name)
      → Osc.dispatch p address (Osc.int v ∷ Osc.float x ∷ rest) s
        ≡ record s { host = (call_method p name (v +ℤ pos 1) x s.host).1 }
  unfolding Osc.dispatch Osc.handle Osc.v_f Osc.to_int Osc.to_float ◌>>=◌
  dispatch-method address name v x rest s found = rw (found, Osc.dispatch) refl

  -- A message for a parameter of a voice, with the voice number as an integer and the value as a float,
  -- calls the method that the table names, with the voice number counted from 1. Further arguments are
  -- ignored, and so is what the call returns; the rest of the server is untouched.
  pub dispatch-param :
      (suffix name : String) (v : ℤ) (x : F) (rest : List (Osc.Arg p)) (s : Osc.Server p)
      → lookup suffix param_map ≡ some name
      → Osc.dispatch p (param_address suffix) (Osc.int v ∷ Osc.float x ∷ rest) s
        ≡ record s { host = (call_method p name (v +ℤ pos 1) x s.host).1 }
  dispatch-param suffix name v x rest s found =
      dispatch-method (param_address suffix) name v x rest s (param_map-method suffix name found)

  -- A message whose address is not in the table changes nothing.
  dispatch-unknown :
      (address : String) (args : List (Osc.Arg p)) (s : Osc.Server p)
      → lookup address handlers ≡ none
      → Osc.dispatch p address args s ≡ s
  unfolding Osc.dispatch
  dispatch-unknown address args s e = rw (e, Osc.dispatch) refl

  -- A message for a float parameter of a voice, numbered from 0, with the value as a float: the property
  -- of that voice then reads the value in single precision, and every other float property of it and of the
  -- other voices reads what it did. The flags of all voices, the arrays they hold, the contents of the
  -- arrays, the gains, the native queue and the running state stay.
  pub dispatch-mirror :
      (suffix name attr : String) (k : ℕ) (x : F) (rest : List (Osc.Arg p)) (s : Osc.Server p)
      (j : ℕ) (a : String)
      → lookup suffix param_map ≡ some name
      → lookup name float_params ≡ some attr
      → s.host.voices ≡ pos (length s.host.engine.voices)
      → k < length s.host.engine.voices
      → (mirror p j a
            (Osc.dispatch p
              (param_address suffix)
              (Osc.int (pos k) ∷ Osc.float x ∷ rest)
              s).host.engine
          ≡ replaced p k attr (p.narrow x) s.host.engine j a)
        × KeepsRest p s.host.engine
            (Osc.dispatch p
              (param_address suffix)
              (Osc.int (pos k) ∷ Osc.float x ∷ rest)
              s).host.engine
  dispatch-mirror suffix name attr k x rest s j a found named same lt =
      let called : pos k +ℤ pos 1 ≡ pos (suc k) = omega int_laws in
      rw (dispatch-param suffix name (pos k) x rest s found, called)
        (let both = call_method-mirror p name attr k x s.host j a named same lt in (both.1, both.2))
