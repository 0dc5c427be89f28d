-- ===== src/Wav/RoundTrip.antt =====
-- What `read_wav` makes of a file that `write_wav` wrote.
use softcut_py.Base.{
  ℕ, suc, ◌+◌, ◌*◌, ◌/◌, ◌%◌, ◌≤◌, ◌≡◌, refl, ◌∙◌, ap, ap₂, sym, String, Bool, true, false, List,
  [], ◌∷◌, ◌++◌, map, Option, none, some, if◌then◌else◌, length, replicate, arith, get_or,
  length-append, string_eq, lt→ltb,
}
use softcut_py.Base.Int.{ℤ, pos, negsuc, ltb_ℤ, ◌≤ℤ◌}
use softcut_py.Base.Exec.{ok, ◌>>=◌}
use softcut_py.Platform.{Platform}
use softcut_py.Wav.{
  Disk, read_wav, decode_file, write_frames, write_wav, check_view, View, header_fits,
}
use softcut_py.Wav.Pcm.{
  signed, unsigned16, float_to_s16, float_to_s16_bounds, pcm_encode_s16, pcm_decode, decode_loop,
  sample_at, or_old,
}

-- The two bytes of a 16-bit integer give it back.
signed-unsigned16 :
    (s : ℤ)
    → negsuc 32767 ≤ℤ s
    → s ≤ℤ pos 32767
    → signed 32768 (unsigned16 s % 256 + unsigned16 s / 256 % 256 * 256) ≡ s
unfolding signed unsigned16
signed-unsigned16 (pos n) low high = ground arith
signed-unsigned16 (negsuc n) low high = ground arith

get_or-first : (pre rest : List ℕ) (a d : ℕ) → get_or (pre ++ a ∷ rest) (length pre) d ≡ a
get_or-first [] rest a d = refl
get_or-first (x ∷ pre) rest a d = get_or-first pre rest a d

get_or-second :
    (pre rest : List ℕ) (a b d : ℕ) → get_or (pre ++ a ∷ b ∷ rest) (suc (length pre)) d ≡ b
get_or-second [] rest a b d = refl
get_or-second (x ∷ pre) rest a b d = get_or-second pre rest a b d

append_assoc : (xs ys zs : List ℕ) → (xs ++ ys) ++ zs ≡ xs ++ (ys ++ zs)
append_assoc [] ys zs = refl
append_assoc (x ∷ xs) ys zs = ap (λ (r : List ℕ). x ∷ r) (append_assoc xs ys zs)

bytes : {a b c d : ℕ} → a ≡ c → b ≡ d → a + b * 256 ≡ c + d * 256
bytes e q = ap₂ (λ (a b : ℕ). a + b * 256) e q

module _ (p : Platform) where
  open p use {S, s_lit, s_div}

  -- The step of the 16-bit scale that stands for a sample.
  abbrev pub quantized : S → S
  quantized x = s_div (s_lit (float_to_s16 p x)) (s_lit (pos 32768))

  length-pcm_encode_s16 : (xs : List S) → length (pcm_encode_s16 p xs) ≡ 2 * length xs
  unfolding pcm_encode_s16
  length-pcm_encode_s16 [] = refl
  length-pcm_encode_s16 (x ∷ xs) = omega (arith, length-pcm_encode_s16 xs)

  sample_at-encoded :
      (pre : List ℕ) (i : ℕ) (x : S) (rest : List ℕ)
      → length pre ≡ 2 * i
      → sample_at p 2
          (pre
            ++ (unsigned16 (float_to_s16 p x) % 256)
              ∷ (unsigned16 (float_to_s16 p x) / 256) % 256
              ∷ rest)
          i
        ≡ some (quantized x)
  unfolding sample_at
  sample_at-encoded pre i x rest h =
      let raw =
        pre
        ++ (unsigned16 (float_to_s16 p x) % 256)
          ∷ (unsigned16 (float_to_s16 p x) / 256) % 256
          ∷ rest in
      let second : 2 * i + 1 ≡ suc (length pre) = omega (arith, h) in
      ap (λ (s : ℤ). some (s_div (s_lit s) (s_lit (pos 32768))))
        (ap (λ (n : ℕ). signed 32768 n)
            (bytes (ap (λ (k : ℕ). get_or raw k 0) (sym h) ∙ get_or-first pre _ _ 0)
              (ap (λ (k : ℕ). get_or raw k 0) second ∙ get_or-second pre rest _ _ 0))
          ∙ signed-unsigned16 (float_to_s16 p x) (float_to_s16_bounds p x).0
              (float_to_s16_bounds p x).1)

  in_file :
      (b : Bool) (o : Option S) (y z : S)
      → b ≡ true
      → o ≡ some y
      → (if b then or_old p o z else z) ≡ y
  in_file b o y z first found = rw (first, found) refl

  decode_loop-encoded :
      (pre : List ℕ) (i : ℕ) (xs : List S) (z : S)
      → length pre ≡ 2 * i
      → decode_loop p 2 (pre ++ pcm_encode_s16 p xs) i (replicate (length xs) z) ≡ map quantized xs
  unfolding decode_loop pcm_encode_s16
  decode_loop-encoded pre i [] z h = refl
  decode_loop-encoded pre i (x ∷ xs) z h =
      let a = unsigned16 (float_to_s16 p x) % 256 in
      let b = unsigned16 (float_to_s16 p x) / 256 % 256 in
      let raw = pre ++ a ∷ b ∷ pcm_encode_s16 p xs in
      ap₂ (λ (y : S) (ys : List S). y ∷ ys)
        (in_file _ _ (quantized x) z
          (lt→ltb _ _ (
            omega (
              arith,
              h,
              length-append pre (pcm_encode_s16 p (x ∷ xs)),
              length-pcm_encode_s16 (x ∷ xs),
            )))
          (sample_at-encoded pre i x (pcm_encode_s16 p xs) h))
        (ap (λ (r : List ℕ). decode_loop p 2 r (suc i) (replicate (length xs) z))
            (sym (append_assoc pre (a ∷ b ∷ []) (pcm_encode_s16 p xs)))
          ∙ decode_loop-encoded (pre ++ a ∷ b ∷ []) (suc i) xs z
              (length-append pre (a ∷ b ∷ []) ∙ omega (arith, h)))

  pcm_decode-encoded :
      (xs : List S) (z : S)
      → pcm_decode p (replicate (length (pcm_encode_s16 p xs) / 2) z) (pcm_encode_s16 p xs) 2
        ≡ map quantized xs
  unfolding pcm_decode
  pcm_decode-encoded xs z =
      let half : length (pcm_encode_s16 p xs) / 2 ≡ length xs =
        omega (arith, length-pcm_encode_s16 xs) in
      ap (λ (n : ℕ). decode_loop p 2 (pcm_encode_s16 p xs) 0 (replicate n z)) half
      ∙ decode_loop-encoded [] 0 xs z refl

  -- A buffer and a channel count that `write_wav` accepts, at a sample rate of at least 1, with a header
  -- whose fields fit their 16 and 32 bits and on a path that can be written, are written, and read back
  -- with that channel count and rate, each sample as the step of the 16-bit scale it was rounded to.
  pub read_wav-write_wav :
      (path : String) (v : View S) (rate : ℕ) (channels : Option ℤ) (d : Disk) {count : ℕ}
      → check_view p v channels ≡ ok count
      → d.refused path ≡ none
      → 1 ≤ rate
      → header_fits p count rate (2 * length v.samples) ≡ true
      → ((write_wav p path v (pos rate) channels d).0 ≡ ok tt)
        × (read_wav p (write_wav p path v (pos rate) channels d).1 path
            ≡ ok (record { samples = map quantized v.samples; channels = count; rate = rate }))
  unfolding write_wav write_frames read_wav decode_file ◌>>=◌
  read_wav-write_wav path v rate channels d {count} valid free positive fits =
      let fine : ltb_ℤ (pos rate) (pos 1) ≡ false = ground arith in
      rw
        (
          valid,
          free,
          fine,
          length-pcm_encode_s16 v.samples,
          fits,
          (string_eq.same_iff path path).1 refl,
        )
        (
          refl,
          ap (λ (xs : List S). ok (record { samples = xs; channels = count; rate = rate }))
              (pcm_decode-encoded v.samples (s_lit (pos 0))),
        )
