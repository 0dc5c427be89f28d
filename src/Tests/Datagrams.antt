-- ===== src/Tests/Datagrams.antt =====
-- A message encoded and read back, and a render read back from its file.
use softcut_py.Base.{ℕ, ◌≡◌, refl, sym, ap, none, some, List, [], ◌∷◌, map, length, arith}
use softcut_py.Base.Int.{ℤ, pos, negsuc}
use softcut_py.Base.Exec.{ok, ok-injective}
use softcut_py.Wav.{Disk, read_wav}
use softcut_py.Wav.RoundTrip.{quantized}
use softcut_py.Engine.Render.Blocks.{played}
use softcut_py.Engine.Render.Files.{render_to, read_wav-render_to}
use softcut_py.Osc
use softcut_py.Osc.{Arg}
use softcut_py.Datagram.{osc_datagram}
use softcut_py.Datagram.Decode.{decode, NoZero}
use softcut_py.Datagram.RoundTrip.{shown, decode-osc_datagram}
use softcut_py.Tests.{test_platform, test_engine, test_disk}

abbrev test_args : List (Arg test_platform)
test_args = Osc.int (negsuc 1) ∷ Osc.float (pos 2) ∷ Osc.str "/a" ∷ []

abbrev test_bytes : List ℕ
test_bytes =
    b'/' ∷ b'a' ∷ 0 ∷ 0 ∷ b',' ∷ b'i' ∷ b'f' ∷ b's' ∷ 0 ∷ 0 ∷ 0 ∷ 0 ∷ 255 ∷ 255 ∷ 255 ∷ 254 ∷ 0 ∷ 0
    ∷ 0 ∷ 0 ∷ b'/' ∷ b'a' ∷ 0 ∷ 0 ∷ []

test_args-encoded : osc_datagram test_platform "/a" test_args ≡ ok test_bytes
unfolding osc_datagram
test_args-encoded = refl

decode-osc_datagram_example :
    decode test_bytes ≡ some (b'/' ∷ b'a' ∷ [], map (shown test_platform) test_args)
decode-osc_datagram_example =
    decode-osc_datagram test_platform four "/a" test_args clean (clean, tt) test_args-encoded
  where
    clean : NoZero (b'/' ∷ b'a' ∷ [])
    clean = ((λ z. omega (arith, z)), ((λ z. omega (arith, z)), tt))

    four : (x : ℤ) (bytes : List ℕ) → test_platform.pack_float x ≡ ok bytes → length bytes ≡ 4
    four x bytes h = ap length (sym (ok-injective (0 ∷ 0 ∷ 0 ∷ 0 ∷ []) bytes h))

read_wav-render_to_example :
    (d' : Disk) × (render_to test_platform "a.wav"
        (some (pos 1 ∷ pos 2 ∷ []))
        none
        none
        test_engine
        test_disk
      ≡ some (ok tt, (played test_platform (pos 1 ∷ pos 2 ∷ []) test_engine).1, d'))
    × (read_wav test_platform d' "a.wav"
        ≡ ok (record {
          samples =
              map
                (quantized test_platform)
                (played test_platform (pos 1 ∷ pos 2 ∷ []) test_engine).0;
          channels = 2;
          rate = 1;
        }))
read_wav-render_to_example =
    read_wav-render_to test_platform "a.wav" (pos 1 ∷ pos 2 ∷ []) 1 2 test_engine test_disk refl
      (omega arith) refl (omega arith) refl (omega arith) refl refl
