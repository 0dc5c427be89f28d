-- ===== src/Osc/Args.antt =====
-- The state of the server of src/softcut/osc.py, and how a handler reads the arguments of a message.
use softcut_py.Base.{ℕ, String, Bool, none, some, List, string_eq, if◌then◌else◌, get_elem?}
use softcut_py.Base.Int.{ℤ, pos}
use softcut_py.Base.Exec.{Exec, Result, ok, err, lift, ◌>>=◌, index_error}
use softcut_py.Platform.{Platform}
use softcut_py.Norns.{Host}
use softcut_py.Osc.Poll.{PhasePoll}

module _ (p : Platform) where
  open p use {F, lit, trunc, of_int, parse_int, parse_float, show_int, show_float}

  -- An argument of a parsed message.
  pub data Arg : Type 0 where
    int : ℤ → Arg
    float : F → Arg
    str : String → Arg
    boolean : Bool → Arg

  pub record Server : Type 0 where
    pub host : Host p
    pub backend : String
    -- `_quit`
    pub quit_requested : Bool
    -- `_phase`
    pub phase : PhasePoll p
    -- `_thread` serves, or the native receiver runs; the socket is bound
    pub serving : Bool
    pub bound : Bool

  -- `int(arg)`, `float(arg)` and `str(arg)`
  unfoldable pub to_int : Arg → Result ℤ
  to_int (int i) = ok i
  to_int (float x) = trunc x
  to_int (str s) = parse_int s
  to_int (boolean b) = ok (pos (if b then 1 else 0))

  unfoldable pub to_float : Arg → Result F
  to_float (int i) = of_int i
  to_float (float x) = ok x
  to_float (str s) = parse_float s
  to_float (boolean b) = ok (lit (pos (if b then 1 else 0)))

  unfoldable pub to_str : Arg → String
  to_str (int i) = show_int i
  to_str (float x) = show_float x
  to_str (str s) = s
  to_str (boolean b) = if b then "True" else "False"

  -- `args[k]`
  abbrev pub arg : List Arg → ℕ → Exec Server Arg
  arg args k s = elim (get_elem? args k) [ none ↦ (err index_error, s) | some a ↦ (ok a, s) ]

  abbrev pub int_arg : List Arg → ℕ → Exec Server ℤ
  int_arg args k = arg args k >>= λ a. lift (to_int a)

  abbrev pub float_arg : List Arg → ℕ → Exec Server F
  float_arg args k = arg args k >>= λ a. lift (to_float a)

  -- `float(args[k]) if len(args) > k else d`
  abbrev pub float_or : List Arg → ℕ → F → Exec Server F
  float_or args k d s = elim (get_elem? args k) [ none ↦ (ok d, s) | some a ↦ (to_float a, s) ]

  abbrev pub int_or : List Arg → ℕ → ℤ → Exec Server ℤ
  int_or args k d s = elim (get_elem? args k) [ none ↦ (ok d, s) | some a ↦ (to_int a, s) ]

  abbrev pub on_host : Exec (Host p) Unit → Exec Server Unit
  on_host m s = ((m s.host).0, record s { host = (m s.host).1 })
