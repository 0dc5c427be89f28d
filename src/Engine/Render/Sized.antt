-- ===== src/Engine/Render/Sized.antt =====
-- Rendering keeps the sizes of all that the engine holds.
use softcut_py.Base.{
  ℕ, zero, suc, ◌+◌, ◌*◌, ◌≤◌, ◌<◌, ◌≡◌, refl, sym, subst, ◌∙◌, ap, arith, Bool-cases, inl, inr,
  Option, none, some, false, List, [], ◌∷◌, map, length, get_or, set, take, drop, replicate,
  length-append, length-drop, length-take, length-map, length-replicate,
}
use softcut_py.Base.Int.{pos, pos_part}
use softcut_py.Base.Exec.{ok}
use softcut_py.Platform.{Platform}
use softcut_py.Voice.{Voice}
use softcut_py.Mixer.{
  VoiceMix, Mixed, gained, add_scaled, feedback_into, voice_input, voice_row, process_voice,
  process_voices, process_block,
}
use softcut_py.Engine.{Engine}
use softcut_py.Engine.Shape.{shape}
use softcut_py.Engine.Render.{process_core, mixed, voice_mix, put_dsps, render}
use softcut_py.Engine.Render.Cut.{cut}
use softcut_py.Engine.Render.Rounds.{play, process_core-block_size}
use softcut_py.Engine.Render.Blocks.{played}
use softcut_py.Engine.Render.Calls.{render-played}

-- What `processBlockMono` promises: it writes as many samples as it reads, and no array changes its
-- length.
pub record BlockLaws (p : Platform) : Type 0 where
  pub writes :
      (xs : List p.S) (arrays : List (List p.S)) (d : p.Dsp)
      → length (p.process_mono xs arrays d).0 ≡ length xs
  pub keeps :
      (xs : List p.S) (arrays : List (List p.S)) (d : p.Dsp)
      → map length (p.process_mono xs arrays d).1 ≡ map length arrays

module _ {ℓ} {A : Type ℓ} where
  lengths-set :
      (xs : List (List A)) (i : ℕ) (v : List A)
      → length v ≡ length (get_or xs i [])
      → map length (set xs i v) ≡ map length xs
  lengths-set [] i v h = refl
  lengths-set (x ∷ xs) zero v h = ap (λ n. n ∷ map length xs) h
  lengths-set (x ∷ xs) (suc i) v h = ap (λ r. length x ∷ r) (lengths-set xs i v h)

  pub length-get_or :
      (xs : List (List A)) (i n b : ℕ)
      → map length xs ≡ replicate n b
      → i < n
      → length (get_or xs i []) ≡ b
  length-get_or xs i zero b h k = absurd (omega arith)
  length-get_or [] i (suc n) b h k = cc
  length-get_or (x ∷ xs) zero (suc n) b h k = cc
  length-get_or (x ∷ xs) (suc i) (suc n) b h k = length-get_or xs i n b (cc) (omega arith)

module _ (p : Platform) where
  open p use {S, Dsp, s_lit, s_mul, s_eq, process_mono}

  length-add_scaled : (g : S) (po xs : List S) → length (add_scaled p g po xs) ≡ length xs
  unfolding add_scaled
  length-add_scaled g [] xs = refl
  length-add_scaled g (x ∷ po) [] = refl
  length-add_scaled g (x ∷ po) (y ∷ xs) = ap suc (length-add_scaled g po xs)

  length-feedback_into :
      (fb : List S) (n dst src : ℕ) (rows : List (List S)) (xs : List S)
      → length (feedback_into p fb n dst src rows xs) ≡ length xs
  unfolding feedback_into
  length-feedback_into fb n dst src [] xs = refl
  length-feedback_into fb n dst src (po ∷ rows) xs =
      let g = get_or fb (src * n + dst) (s_lit (pos 0)) in
      elim (Bool-cases (s_eq g (s_lit (pos 0)))) [
        | inl none_there ↦ rw none_there (length-feedback_into fb n dst (suc src) rows xs)
        | inr some_there ↦ rw some_there (
            length-feedback_into fb n dst (suc src) rows (add_scaled p g po xs)
            ∙ length-add_scaled g po xs)
      ]

  length-gained :
      (ext_in : Option (List S)) (ig : S) (frames : ℕ) → length (gained p ext_in ig frames) ≤ frames
  unfolding gained
  length-gained none ig frames = omega (arith, length-replicate frames (s_lit (pos 0)))
  length-gained (some xs) ig frames =
      omega (arith, length-map (take frames xs) (λ x. s_mul x ig), length-take frames xs)

  module _ (laws : BlockLaws p) (fb : List S) (n channels b : ℕ) (ext_in : Option (List S))
      (frames : ℕ) (prev_out : List (List S)) (small : frames ≤ b) where
    length-voice_row :
        (dst : ℕ) (v : VoiceMix p) (m : Mixed p)
        → length (get_or m.cur_out dst []) ≡ b
        → length (voice_row p fb n channels ext_in frames prev_out dst v m)
          ≡ length (get_or m.cur_out dst [])
    unfolding voice_input
    length-voice_row dst v m h =
        let voice_in = voice_input p fb n dst ext_in frames prev_out v in
        let o = (process_mono voice_in m.arrays v.sc).0 in
        let row = get_or m.cur_out dst [] in
        omega (
          arith,
          laws.writes voice_in m.arrays v.sc,
          length-feedback_into fb n dst 0 prev_out (gained p ext_in v.input_gain frames),
          length-gained ext_in v.input_gain frames,
          length-append o (drop (length o) row),
          length-drop (length o) row,
        )

    process_voices-lengths :
        (dst k : ℕ) (voices : List (VoiceMix p)) (m : Mixed p)
        → map length m.cur_out ≡ replicate k b
        → dst + length voices ≤ k
        → (map length (process_voices p fb n channels ext_in frames prev_out dst voices m).cur_out
            ≡ replicate k b)
          × (map length (process_voices p fb n channels ext_in frames prev_out dst voices m).arrays
              ≡ map length m.arrays)
    unfolding process_voices process_voice
    process_voices-lengths dst k [] m h room = (h, refl)
    process_voices-lengths dst k (v ∷ voices) m h room =
        let row = voice_row p fb n channels ext_in frames prev_out dst v m in
        let m1 = process_voice p fb n channels ext_in frames prev_out dst v m in
        let old = length-get_or m.cur_out dst k b h (omega arith) in
        let kept = lengths-set m.cur_out dst row (length-voice_row dst v m old) in
        let (rows, arrays) =
          process_voices-lengths (suc dst) k voices m1 (kept ∙ h) (omega arith) in
        (rows, arrays ∙ laws.keeps (voice_input p fb n dst ext_in frames prev_out v) m.arrays v.sc)

  -- A row of a block for each voice, on both sides of the swap.
  pub record IsSized (e : Engine p) : Type 0 where
    pub prev_rows : map length e.prev_out ≡ replicate (length e.voices) (pos_part e.block_size)
    pub cur_rows : map length e.cur_out ≡ replicate (length e.voices) (pos_part e.block_size)

  pub length-put_dsps :
      (voices : List (Voice p)) (dsps : List Dsp) → length (put_dsps p voices dsps) ≡ length voices
  length-put_dsps [] dsps = refl
  length-put_dsps (v ∷ voices) [] = refl
  length-put_dsps (v ∷ voices) (d ∷ dsps) = ap suc (length-put_dsps voices dsps)

  module _ (laws : BlockLaws p) where
    process_core-IsSized :
        (xs : List S) (frames : ℕ) (e : Engine p)
        → frames ≤ pos_part e.block_size
        → IsSized e
        → IsSized (process_core p xs frames e).1
          × (shape p (process_core p xs frames e).1 ≡ shape p e)
    unfolding process_core mixed process_block shape
    process_core-IsSized xs frames e small sized =
        let n = length e.voices in
        let b = pos_part e.block_size in
        let channels = pos_part e.out_channels in
        let m0 : Mixed p = record {
          out = replicate (frames * channels) (s_lit (pos 0));
          cur_out = e.cur_out;
          arrays = e.arrays;
          dsps = [];
        } in
        let views = map (voice_mix p) e.voices in
        let m = process_voices p e.fb n channels (some xs) frames e.prev_out 0 views m0 in
        let (rows, arrays) =
          process_voices-lengths laws e.fb n channels b (some xs) frames e.prev_out small 0 n views
            m0 sized.cur_rows (omega (arith, length-map e.voices (voice_mix p))) in
        let count = length-put_dsps e.voices m.dsps in
        (
          record {
            prev_rows = rows ∙ ap (λ k. replicate k b) (sym count);
            cur_rows = sized.prev_rows ∙ ap (λ k. replicate k b) (sym count);
          },
          λ i. record { voice_count = count i; gain_count = length e.fb; array_lengths = arrays i },
        )

    play-IsSized :
        (n b : ℕ) (xs : List S) (e : Engine p)
        → b ≡ pos_part e.block_size
        → IsSized e
        → IsSized (play p (cut n b xs) e).1 × (shape p (play p (cut n b xs) e).1 ≡ shape p e)
    unfolding play cut
    play-IsSized zero b xs e same sized = (sized, refl)
    play-IsSized (suc n) b [] e same sized = (sized, refl)
    play-IsSized (suc n) b (x ∷ xs) e same sized =
        let block = take b (x ∷ xs) in
        let e1 = (process_core p block (length block) e).1 in
        let (sized1, shape1) =
          process_core-IsSized block (length block) e (omega (arith, length-take b (x ∷ xs)))
            sized in
        let (sized2, shape2) =
          play-IsSized n b (drop b (x ∷ xs)) e1
            (same ∙ ap pos_part (sym (process_core-block_size p block (length block) e))) sized1 in
        (sized2, shape2 ∙ shape1)

    -- On a stopped engine whose rows have the size of a block, and with a DSP voice that writes what it
    -- reads, a render of an input, with no array for the output and no seconds, that returns leaves as many
    -- voices, gains and arrays as there were, each array of its old length, and again a row of one block
    -- for each voice on both sides of the swap.
    pub render-IsSized :
        (xs o : List S) (e e' : Engine p)
        → e.running ≡ false
        → 1 ≤ pos_part e.block_size
        → IsSized e
        → render p (some xs) none none e ≡ some (ok o, e')
        → IsSized e' × (shape p e' ≡ shape p e)
    unfolding played
    render-IsSized xs o e e' stopped one sized h =
        let at_end = sym (render-played p xs e stopped one) ∙ h in
        let left : (played p xs e).1 ≡ e' = cc in
        subst (λ (t : Engine p). IsSized t × (shape p t ≡ shape p e)) left
          (play-IsSized (suc (length xs)) (pos_part e.block_size) xs e refl sized)
