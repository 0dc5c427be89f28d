-- ===== src/Osc/Handlers.antt =====
-- The handlers of src/softcut/osc.py: arguments read in order, then a call on the host.
use softcut_py.Base.{List, string_eq}
use softcut_py.Base.Int.{ℤ, pos, negsuc, ◌+ℤ◌}
use softcut_py.Base.Exec.{Exec, lift, ◌>>=◌}
use softcut_py.Platform.{Platform, truthy}
use softcut_py.Engine.{num, voice_at}
use softcut_py.Engine.Attributes.{set_property}
use softcut_py.Norns.{Host, on_engine, bool_setter, buffer}
use softcut_py.Norns.Regions.{
  buffer_read_mono, buffer_read_stereo, buffer_write_mono, buffer_write_stereo,
  buffer_clear_channel, buffer_clear_region, buffer_clear_region_channel,
}
use softcut_py.Osc.Args.{
  Arg, Server, to_int, to_float, to_str, int_arg, float_arg, float_or, int_or, on_host, arg,
}

module _ (p : Platform) where
  open p use {F, lit}

  -- `_v_f(method)`: `v, x = args[0], args[1]`, then the call
  unfoldable pub v_f : (ℤ → F → Exec (Host p) Unit) → List (Arg p) → Exec (Server p) Unit
  unfolding to_int to_float
  v_f m args = do
    v ← arg p args 0
    x ← arg p args 1
    i ← lift (to_int p v)
    value ← lift (to_float p x)
    on_host p (m (i +ℤ pos 1) value)

  -- `_ii_f(method)`
  unfoldable pub ii_f : (ℤ → ℤ → F → Exec (Host p) Unit) → List (Arg p) → Exec (Server p) Unit
  unfolding to_int to_float
  ii_f m args = do
    a ← arg p args 0
    b ← arg p args 1
    x ← arg p args 2
    i ← lift (to_int p a)
    j ← lift (to_int p b)
    value ← lift (to_float p x)
    on_host p (m (i +ℤ pos 1) (j +ℤ pos 1) value)

  -- `_set_enabled(i, state)`
  unfoldable pub set_enabled : ℤ → F → Exec (Host p) Unit
  unfolding bool_setter
  set_enabled i state = bool_setter p "play" i (truthy p state)

  -- `self.host.engine[int(v)].input_gain = float(level)`: the value first, then the voice.
  unfoldable pub on_in_cut : List (Arg p) → Exec (Server p) Unit
  unfolding to_int to_float voice_at set_property
  on_in_cut args = do
    in_ch ← arg p args 0
    v ← arg p args 1
    level ← arg p args 2
    gain ← lift (to_float p level)
    i ← lift (to_int p v)
    on_host p (on_engine p (voice_at p i >>= λ k. set_property p k "input_gain" (num gain)))

  unfoldable pub on_buffer : List (Arg p) → Exec (Server p) Unit
  unfolding to_int buffer
  on_buffer args = do
    v ← arg p args 0
    b ← arg p args 1
    i ← lift (to_int p v)
    k ← lift (to_int p b)
    on_host p (buffer p (i +ℤ pos 1) (k +ℤ pos 1))

  unfoldable pub on_read_mono : List (Arg p) → Exec (Server p) Unit
  unfolding to_int to_float to_str buffer_read_mono
  on_read_mono args = do
    path ← arg p args 0
    start_src ← float_or p args 1 (lit (pos 0))
    start_dst ← float_or p args 2 (lit (pos 0))
    dur ← float_or p args 3 (lit (negsuc 0))
    ch_src ← int_or p args 4 (pos 0)
    ch_dst ← int_or p args 5 (pos 0)
    on_host p (
        buffer_read_mono p (to_str p path) start_src start_dst dur (ch_src +ℤ pos 1)
          (ch_dst +ℤ pos 1) (lit (pos 0)) (lit (pos 1)))

  unfoldable pub on_read_stereo : List (Arg p) → Exec (Server p) Unit
  unfolding to_float to_str buffer_read_stereo
  on_read_stereo args = do
    path ← arg p args 0
    start_src ← float_or p args 1 (lit (pos 0))
    start_dst ← float_or p args 2 (lit (pos 0))
    dur ← float_or p args 3 (lit (negsuc 0))
    on_host p
        (buffer_read_stereo p (to_str p path) start_src start_dst dur (lit (pos 0)) (lit (pos 1)))

  unfoldable pub on_write_mono : List (Arg p) → Exec (Server p) Unit
  unfolding to_int to_float to_str buffer_write_mono
  on_write_mono args = do
    path ← arg p args 0
    first ← float_or p args 1 (lit (pos 0))
    dur ← float_or p args 2 (lit (negsuc 0))
    ch ← int_or p args 3 (pos 0)
    on_host p (buffer_write_mono p (to_str p path) first dur (ch +ℤ pos 1))

  unfoldable pub on_write_stereo : List (Arg p) → Exec (Server p) Unit
  unfolding to_float to_str buffer_write_stereo
  on_write_stereo args = do
    path ← arg p args 0
    first ← float_or p args 1 (lit (pos 0))
    dur ← float_or p args 2 (lit (negsuc 0))
    on_host p (buffer_write_stereo p (to_str p path) first dur)

  unfoldable pub on_clear_channel : List (Arg p) → Exec (Server p) Unit
  unfolding to_int buffer_clear_channel
  on_clear_channel args =
      int_arg p args 0 >>= λ ch. on_host p (buffer_clear_channel p (ch +ℤ pos 1))

  unfoldable pub on_clear_region : List (Arg p) → Exec (Server p) Unit
  unfolding to_float buffer_clear_region
  on_clear_region args = do
    first ← float_arg p args 0
    dur ← float_arg p args 1
    on_host p (buffer_clear_region p first dur (lit (pos 0)) (lit (pos 0)))

  unfoldable pub on_clear_region_channel : List (Arg p) → Exec (Server p) Unit
  unfolding to_int to_float buffer_clear_region_channel
  on_clear_region_channel args = do
    ch ← int_arg p args 0
    first ← float_arg p args 1
    dur ← float_arg p args 2
    on_host p (buffer_clear_region_channel p (ch +ℤ pos 1) first dur (lit (pos 0)) (lit (pos 0)))
