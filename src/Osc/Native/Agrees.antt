-- ===== src/Osc/Native/Agrees.antt =====
-- The two transports agree: what the native receiver does with a message is what the Python handlers
-- do with it.
use softcut_py.Base.{
  ◌≡◌, refl, ap, String, not, some, List, [], ◌∷◌, length, Option-cases, inl, inr, string_eq,
}
use softcut_py.Base.Int.{ℤ, pos, ◌+ℤ◌}
use softcut_py.Base.Dict.{lookup}
use softcut_py.Base.Exec.{ok, ◌>>=◌}
use softcut_py.Platform.{Platform, truthy, as_int32}
use softcut_py.Engine.OscQueue.{IsQuiet}
use softcut_py.Norns.{Host, call_method}
use softcut_py.Osc
use softcut_py.Osc.{handlers}
use softcut_py.Osc.Native.{
  Tagged, tag_i, tag_f, native_floats, native_flags, fast_entry, try_fast_dispatch, delivered,
  received, receive,
}
use softcut_py.Osc.Native.Floats.{native_floats-method, stored_on_both, host_drained}
use softcut_py.Osc.Native.Flags.{native_flags-method, flagged_on_both}

module _ (p : Platform) where
  open p use {F, S, s_lit, s_eq, narrow, widen, of_int}

  -- A C float survives the way through Python's float, and so does a 32-bit integer made a float on
  -- either side; both sides agree on what is zero.
  pub record NumberLaws : Type 0 where
    pub exact : (x : S) → narrow (widen x) ≡ x
    pub zero_test : (x : S) → truthy p (widen x) ≡ not (s_eq x (s_lit (pos 0)))
    pub int_value : ℤ → F
    pub int_float : (i : ℤ) → as_int32 i ≡ ok i → of_int i ≡ ok (int_value i)
    pub int_exact : (i : ℤ) → as_int32 i ≡ ok i → narrow (int_value i) ≡ s_lit i
    pub int_zero_test :
        (i : ℤ) → as_int32 i ≡ ok i → truthy p (int_value i) ≡ not (s_eq (s_lit i) (s_lit (pos 0)))

  -- The integers of a message have 32 bits.
  abbrev pub HasInt32s : List (Tagged p) → Type 0
  HasInt32s [] = Unit
  HasInt32s (tag_i i ∷ args) = (as_int32 i ≡ ok i) × HasInt32s args
  HasInt32s (_ ∷ args) = HasInt32s args

  -- The server once the audio thread has emptied the queues.
  abbrev pub server_drained : Osc.Server p → Osc.Server p
  server_drained s = record s { host = host_drained p s.host }

  dispatch-value :
      (address name : String) (v : ℤ) (a : Osc.Arg p) (x : F) (s : Osc.Server p)
      → lookup address handlers ≡ some (Osc.method name)
      → Osc.to_float p a ≡ ok x
      → Osc.dispatch p address (Osc.int v ∷ a ∷ []) s
        ≡ record s { host = (call_method p name (v +ℤ pos 1) x s.host).1 }
  unfolding Osc.dispatch Osc.handle Osc.v_f Osc.to_int ◌>>=◌
  dispatch-value address name v a x s found value = rw (found, value, Osc.dispatch) refl

  fast_entry-dispatch :
      (address : String) (v : ℤ) (args : List (Tagged p)) (a : Osc.Arg p) (x : F) (raw : S)
      (s : Osc.Server p)
      → delivered p args ≡ Osc.int v ∷ a ∷ []
      → Osc.to_float p a ≡ ok x
      → narrow x ≡ raw
      → truthy p x ≡ not (s_eq raw (s_lit (pos 0)))
      → s.host.voices ≡ pos (length s.host.engine.voices)
      → IsQuiet p s.host.engine
      → server_drained (received p (fast_entry p address v raw s.host.engine) address args s)
        ≡ server_drained (Osc.dispatch p address (delivered p args) s)
  unfolding fast_entry
  fast_entry-dispatch address v args a x raw s shown value exact zero same quiet =
      elim (Option-cases (lookup address native_floats)) [
        | inr (attr, found) ↦
            let (dsp, (name, route, named)) = native_floats-method address attr found in
            rw (found, shown, dispatch-value address name v a x s route value, fast_entry)
              (ap (λ (h : Host p). record s { host = h })
                (stored_on_both p name attr v x raw s.host named dsp exact same quiet))
        | inl no_float ↦ elim (Option-cases (lookup address native_flags)) [
          | inr (attr, found) ↦
              let (name, route, unnamed, named) = native_flags-method address attr found in
              rw
                (
                  no_float,
                  found,
                  shown,
                  dispatch-value address name v a x s route value,
                  fast_entry,
                )
                (ap (λ (h : Host p). record s { host = h })
                  (flagged_on_both p address name attr v x (not (s_eq raw (s_lit (pos 0)))) s.host
                    found unnamed named zero same quiet))
          | inl no_flag ↦ rw (no_float, no_flag, fast_entry) refl
        ]
      ]

  -- Where nothing waits for the audio thread, the native receiver does with any message what the
  -- Python handlers do with it, once the audio thread has emptied the queues: a message that it
  -- dispatches in C sets the same property of the same voice to the same value, and a bad voice
  -- number is dropped by both.
  pub receive-dispatch :
      (laws : NumberLaws) (address : String) (args : List (Tagged p)) (s : Osc.Server p)
      → HasInt32s args
      → s.host.voices ≡ pos (length s.host.engine.voices)
      → IsQuiet p s.host.engine
      → server_drained (receive p address args s)
        ≡ server_drained (Osc.dispatch p address (delivered p args) s)
  unfolding receive try_fast_dispatch delivered Osc.to_float
  receive-dispatch laws address (tag_i v ∷ tag_f raw ∷ []) s small same quiet =
      fast_entry-dispatch address v (tag_i v ∷ tag_f raw ∷ []) (Osc.float (widen raw)) (widen raw)
        raw s refl refl (laws.exact raw) (laws.zero_test raw) same quiet
  receive-dispatch laws address (tag_i v ∷ tag_i n ∷ []) s (_, (small, _)) same quiet =
      fast_entry-dispatch address v (tag_i v ∷ tag_i n ∷ []) (Osc.int n) (laws.int_value n)
        (s_lit n) s refl (laws.int_float n small) (laws.int_exact n small)
        (laws.int_zero_test n small) same quiet
  receive-dispatch laws address _ s small same quiet = refl
