-- ===== src/Mixer/At.antt =====
-- The output of a block: each sample is the sum of what the voices contribute, in their order.
use softcut_py.Base.{
  ℕ, zero, suc, ◌+◌, ◌*◌, ◌≤◌, ◌<◌, ◌≡◌, ◌≢◌, refl, sym, ◌∙◌, ap, arith, Option, List, [], ◌∷◌,
  length, get_or, take, drop, replicate, length-replicate, get_or-set_self, get_or-set_ne,
  length-set, length-take, length-append, length-drop,
}
use softcut_py.Base.Int.{pos}
use softcut_py.Platform.{Platform}
use softcut_py.Mixer.{
  VoiceMix, Mixed, process_voice, process_voices, process_block, voice_row, voice_input, left_gain,
  right_gain,
}
use softcut_py.Mixer.Frames.{added, length-mix_frames, mix_frames-at}

module _ {ℓ} {A : Type ℓ} where
  get_or-take : (n i : ℕ) (xs : List A) (d : A) → i < n → get_or (take n xs) i d ≡ get_or xs i d
  get_or-take zero i xs d h = absurd (omega arith)
  get_or-take (suc n) i [] d h = refl
  get_or-take (suc n) zero (x ∷ xs) d h = refl
  get_or-take (suc n) (suc i) (x ∷ xs) d h = get_or-take n i xs d (omega arith)

  get_or-replicate : (n i : ℕ) (d : A) → get_or (replicate n d) i d ≡ d
  get_or-replicate zero i d = refl
  get_or-replicate (suc n) zero d = refl
  get_or-replicate (suc n) (suc i) d = get_or-replicate n i d

module _ (p : Platform) where
  open p use {S, s_lit, process_mono}

  zero_sample : S
  zero_sample = s_lit (pos 0)

  -- Sample `f` of the rows from `dst` on, added up with the gains of their voices for channel `c`.
  unfoldable pub mixdown : ℕ → ℕ → ℕ → List (VoiceMix p) → List (List S) → S → S
  unfolding zero_sample
  mixdown c f dst [] rows acc = acc
  mixdown c f dst (v ∷ voices) rows acc = mixdown c f (suc dst) voices rows (
      added p c (left_gain p v) (right_gain p v) (get_or (get_or rows dst []) f (s_lit (pos 0)))
        acc)

  module _ (fb : List S) (n_voices channels : ℕ) (ext_in : Option (List S)) (frames : ℕ)
      (prev_out : List (List S)) where
    abbrev processed : ℕ → List (VoiceMix p) → Mixed p → Mixed p
    processed = process_voices p fb n_voices channels ext_in frames prev_out

    abbrev next_state : ℕ → VoiceMix p → Mixed p → Mixed p
    next_state = process_voice p fb n_voices channels ext_in frames prev_out

    abbrev row_of : ℕ → VoiceMix p → Mixed p → List S
    row_of = voice_row p fb n_voices channels ext_in frames prev_out

    length-process_voice :
        (dst : ℕ) (v : VoiceMix p) (m : Mixed p) → length (next_state dst v m).out ≡ length m.out
    unfolding process_voice
    length-process_voice dst v m =
        length-mix_frames p channels (left_gain p v) (right_gain p v) 0
          (take frames (row_of dst v m)) m.out

    pub length-process_voices :
        (dst : ℕ) (voices : List (VoiceMix p)) (m : Mixed p)
        → length (processed dst voices m).out ≡ length m.out
    unfolding process_voices
    length-process_voices dst [] m = refl
    length-process_voices dst (v ∷ voices) m =
        length-process_voices (suc dst) voices (next_state dst v m) ∙ length-process_voice dst v m

    other_row :
        (dst j : ℕ) (v : VoiceMix p) (m : Mixed p)
        → dst ≢ j
        → get_or (next_state dst v m).cur_out j [] ≡ get_or m.cur_out j []
    unfolding process_voice
    other_row dst j v m h = get_or-set_ne m.cur_out (row_of dst v m) [] h

    own_row :
        (dst : ℕ) (v : VoiceMix p) (m : Mixed p)
        → dst < length m.cur_out
        → get_or (next_state dst v m).cur_out dst [] ≡ row_of dst v m
    unfolding process_voice
    own_row dst v m h = get_or-set_self m.cur_out dst (row_of dst v m) [] h

    length-next_rows :
        (dst : ℕ) (v : VoiceMix p) (m : Mixed p)
        → length (next_state dst v m).cur_out ≡ length m.cur_out
    unfolding process_voice
    length-next_rows dst v m = length-set m.cur_out dst (row_of dst v m)

    earlier_row :
        (dst j : ℕ) (voices : List (VoiceMix p)) (m : Mixed p)
        → j < dst
        → get_or (processed dst voices m).cur_out j [] ≡ get_or m.cur_out j []
    unfolding process_voices
    earlier_row dst j [] m h = refl
    earlier_row dst j (v ∷ voices) m h =
        earlier_row (suc dst) j voices (next_state dst v m) (omega arith)
        ∙ other_row dst j v m (omega arith)

    -- Room for a block in the rows from `dst` on.
    abbrev HasRows : ℕ → ℕ → List (List S) → Type 0
    HasRows dst n rows = (j : ℕ) → dst ≤ j → j < dst + n → frames ≤ length (get_or rows j [])

    length-row_of :
        (dst : ℕ) (v : VoiceMix p) (m : Mixed p)
        → frames ≤ length (get_or m.cur_out dst [])
        → frames ≤ length (row_of dst v m)
    length-row_of dst v m h =
        let voice_in = voice_input p fb n_voices dst ext_in frames prev_out v in
        let o = (process_mono voice_in m.arrays v.sc).0 in
        omega (
          arith,
          length-append o (drop (length o) (get_or m.cur_out dst [])),
          length-drop (length o) (get_or m.cur_out dst []),
        )

    process_voice-at :
        (dst : ℕ) (v : VoiceMix p) (m : Mixed p) (f c : ℕ)
        → c < channels
        → f < frames
        → frames ≤ length (get_or m.cur_out dst [])
        → frames * channels ≤ length m.out
        → get_or (next_state dst v m).out (f * channels + c) (s_lit (pos 0))
          ≡ added p c
              (left_gain p v)
              (right_gain p v)
              (get_or (row_of dst v m) f (s_lit (pos 0)))
              (get_or m.out (f * channels + c) (s_lit (pos 0)))
    unfolding process_voice
    process_voice-at dst v m f c hc hf rows room =
        let row = row_of dst v m in
        let whole : 0 + length (take frames row) ≡ frames =
          omega (arith, length-take frames row, length-row_of dst v m rows) in
        let from_zero : 0 + f ≡ f = omega arith in
        rw (← get_or-take frames f row (s_lit (pos 0)) hf) (
          rw from_zero at (
            mix_frames-at p channels (left_gain p v) (right_gain p v) 0 (take frames row) m.out f c
              (s_lit (pos 0)) hc (omega arith) (rw whole room)))

    process_voices-at :
        (dst : ℕ) (voices : List (VoiceMix p)) (m : Mixed p) (f c : ℕ)
        → c < channels
        → f < frames
        → HasRows dst (length voices) m.cur_out
        → dst + length voices ≤ length m.cur_out
        → frames * channels ≤ length m.out
        → get_or (processed dst voices m).out (f * channels + c) (s_lit (pos 0))
          ≡ mixdown c f dst voices
              (processed dst voices m).cur_out
              (get_or m.out (f * channels + c) (s_lit (pos 0)))
    unfolding process_voices mixdown
    process_voices-at dst [] m f c hc hf rows enough room = refl
    process_voices-at dst (v ∷ voices) m f c hc hf rows enough room =
        let m1 = next_state dst v m in
        let final = processed (suc dst) voices m1 in
        process_voices-at (suc dst) voices m1 f c hc hf
          (λ j low high.
            rw (other_row dst j v m (omega arith)) (rows j (omega arith) (omega arith)))
          (omega (arith, length-next_rows dst v m)) (omega (arith, length-process_voice dst v m))
        ∙ ap (mixdown c f (suc dst) voices final.cur_out) (
            process_voice-at dst v m f c hc hf (rows dst (omega arith) (omega arith)) room
            ∙ ap
                (λ row.
                  added p c (left_gain p v) (right_gain p v) (get_or row f (s_lit (pos 0)))
                    (get_or m.out (f * channels + c) (s_lit (pos 0))))
                (sym (
                  earlier_row (suc dst) dst voices m1 (omega arith)
                  ∙ own_row dst v m (omega arith))))

    -- Sample `f` of channel `c` of a block is the sum, in the voices' order, of what each voice put
    -- out at `f` by its gain on that side (equal-power pan), and 0 from the third channel on. This
    -- asks only for a row of at least a block in `cur_out` for each voice.
    pub process_block-at :
        (voices : List (VoiceMix p)) (cur_out arrays : List (List S)) (f c : ℕ)
        → c < channels
        → f < frames
        → length voices ≤ length cur_out
        → ((j : ℕ) → j < length voices → frames ≤ length (get_or cur_out j []))
        → get_or
            (process_block p fb n_voices channels ext_in frames prev_out voices cur_out arrays).out
            (f * channels + c)
            (s_lit (pos 0))
          ≡ mixdown c f 0 voices
              (process_block p fb n_voices channels ext_in frames prev_out voices cur_out
                arrays).cur_out
              (s_lit (pos 0))
    unfolding process_block
    process_block-at voices cur_out arrays f c hc hf enough rows =
        let m : Mixed p = record {
          out = replicate (frames * channels) (s_lit (pos 0));
          cur_out = cur_out;
          arrays = arrays;
          dsps = [];
        } in
        process_voices-at 0 voices m f c hc hf (λ j low high. rows j (omega arith)) (omega arith)
          (omega (arith, length-replicate (frames * channels) (s_lit (pos 0))))
        ∙ ap (mixdown c f 0 voices (processed 0 voices m).cur_out)
            (get_or-replicate (frames * channels) (f * channels + c) (s_lit (pos 0)))
