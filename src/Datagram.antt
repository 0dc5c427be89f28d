-- ===== src/Datagram.antt =====
-- The bytes of an OSC message: `osc_datagram` of src/demos/13_osc_surface.py.
pub mod Decode
pub mod RoundTrip
use softcut_py.Base.{
  ℕ, ◌+◌, ◌-◌, ◌/◌, ◌%◌, ◌^◌, List, [], ◌∷◌, ◌++◌, length, replicate, String, if◌then◌else◌, ltb,
}
use softcut_py.Base.Int.{ℤ, pos, negsuc}
use softcut_py.Base.Exec.{Result, ok, err, and_then, type_error, struct_error}
use softcut_py.Platform.{Platform}
use softcut_py.Osc

-- `pad(raw)`: at least one zero byte, up to a multiple of 4.
unfoldable pub pad : List ℕ → List ℕ
pad raw = raw ++ replicate (4 - length raw % 4) 0

-- The four bytes of a number below 2 ^ 32, the high one first.
abbrev pub big_endian : ℕ → List ℕ
big_endian v = (v / 2 ^ 24) ∷ (v / 2 ^ 16 % 256) ∷ (v / 2 ^ 8 % 256) ∷ (v % 256) ∷ []

-- `struct.pack(">i", i)`
unfoldable pub pack_int : ℤ → Result (List ℕ)
pack_int (pos n) = if ltb n (2 ^ 31) then ok (big_endian n) else err struct_error
pack_int (negsuc n) = if ltb n (2 ^ 31) then ok (big_endian (2 ^ 32 - 1 - n)) else err struct_error

module _ (p : Platform) where
  open p use {utf8, pack_float}

  -- The tag of an argument, and its bytes.
  unfoldable pub encode_arg : Osc.Arg p → Result (ℕ × List ℕ)
  unfolding pack_int pad
  encode_arg (Osc.boolean b) = err type_error
  encode_arg (Osc.int i) = and_then (pack_int i) λ bytes. ok (b'i', bytes)
  encode_arg (Osc.float x) = and_then (pack_float x) λ bytes. ok (b'f', bytes)
  encode_arg (Osc.str s) = ok (b's', pad (utf8 s))

  -- The loop over the arguments: what it appends to `tags` and to `body`.
  unfoldable pub encode_args : List (Osc.Arg p) → Result (List ℕ × List ℕ)
  unfolding encode_arg
  encode_args [] = ok ([], [])
  encode_args (a ∷ args) =
      and_then (encode_arg a)
        λ first. and_then (encode_args args) λ rest. ok (first.0 ∷ rest.0, first.1 ++ rest.1)

  unfoldable pub osc_datagram : String → List (Osc.Arg p) → Result (List ℕ)
  unfolding encode_args pad
  osc_datagram address args =
      and_then (encode_args args)
        λ encoded. ok (pad (utf8 address) ++ (pad (b',' ∷ encoded.0) ++ encoded.1))
