-- ===== src/Engine/Render/Blocks.antt =====
-- Rendering plays the input cut into blocks, and so does the live callback.
use softcut_py.Base.{
  ℕ, zero, suc, ◌+◌, ◌-◌, ◌*◌, ◌≤◌, ◌≡◌, refl, sym, subst, ◌∙◌, ap, none, some, List, [], ◌∷◌,
  length, take, drop, min, arith, length-take, length-drop, length-append, length-replicate,
  replicate,
}
use mathlib.Core.List.{map}
use softcut_py.Base.Int.{pos, pos_part}
use softcut_py.Platform.{Platform}
use softcut_py.Mixer.{process_block}
use softcut_py.Mixer.At.{length-process_voices}
use softcut_py.Engine.{Engine, drain_commands}
use softcut_py.Engine.Render.{
  process_core, mixed, voice_mix, run_blocks, callback_process, callback_input, from_input, silence,
}
use softcut_py.Engine.Render.Cut.{cut}
use softcut_py.Engine.Render.Rounds.{play, run_blocks-play}

module _ (p : Platform) where
  open p use {S, F, s_lit}

  length-process_core :
      (xs : List S) (frames : ℕ) (e : Engine p)
      → length (process_core p xs frames e).0 ≡ frames * pos_part e.out_channels
  unfolding process_core mixed process_block
  length-process_core xs frames e =
      length-process_voices p e.fb (length e.voices) (pos_part e.out_channels) (some xs) frames
        e.prev_out 0 (map (voice_mix p) e.voices)
        (record {
          out = replicate (frames * pos_part e.out_channels) (s_lit (pos 0));
          cur_out = e.cur_out;
          arrays = e.arrays;
          dsps = [];
        })
      ∙ length-replicate (frames * pos_part e.out_channels) (s_lit (pos 0))

  process_core-out_channels :
      (xs : List S) (frames : ℕ) (e : Engine p)
      → (process_core p xs frames e).1.out_channels ≡ e.out_channels
  unfolding process_core
  process_core-out_channels xs frames e = refl

  pub length-play-cut :
      (n b : ℕ) (xs : List S) (e : Engine p)
      → 1 ≤ b
      → length xs ≤ n
      → length (play p (cut n b xs) e).0 ≡ length xs * pos_part e.out_channels
  unfolding play cut
  length-play-cut zero b [] e one h = omega arith
  length-play-cut zero b (x ∷ xs) e one h = absurd (omega arith)
  length-play-cut (suc n) b [] e one h = omega arith
  length-play-cut (suc n) b (x ∷ xs) e one h =
      let block = take b (x ∷ xs) in
      let rest = drop b (x ∷ xs) in
      let out = (process_core p block (length block) e).0 in
      let e1 = (process_core p block (length block) e).1 in
      let same = ap pos_part (process_core-out_channels block (length block) e) in
      let shorter : length rest ≤ n = omega (arith, length-drop b (x ∷ xs)) in
      let whole : length block + length rest ≡ length (x ∷ xs) =
        omega (arith, length-take b (x ∷ xs), length-drop b (x ∷ xs)) in
      let later = rw same at (length-play-cut n b rest e1 one shorter) in
      length-append out (play p (cut n b rest) e1).0
      ∙ by_parts (length block) (length rest) (pos_part e.out_channels) whole
          (length-process_core block (length block) e) later
    where
      by_parts : {u v n : ℕ} (a c k : ℕ) → a + c ≡ n → u ≡ a * k → v ≡ c * k → u + v ≡ n * k
      by_parts a c k h i j = grind arith

  -- What the blocks of `xs` give one after another: the output, and the engine after them.
  unfoldable pub played : List S → Engine p → List S × Engine p
  unfolding play cut
  played xs e = play p (cut (suc (length xs)) (pos_part e.block_size) xs) e

  pub length-played :
      (xs : List S) (e : Engine p)
      → 1 ≤ pos_part e.block_size
      → length (played xs e).0 ≡ length xs * pos_part e.out_channels
  unfolding played
  length-played xs e one =
      length-play-cut (suc (length xs)) (pos_part e.block_size) xs e one (omega arith)

  take_rest : (b : ℕ) (ys : List S) → take (min b (length ys)) ys ≡ take b ys
  take_rest zero ys = ap (λ k. take k ys) {x = min 0 (length ys)} {y = 0} (omega arith)
  take_rest (suc b) [] = ap (λ (k : ℕ). take {A = S} k []) {x = min (suc b) 0} {y = 0} (omega arith)
  take_rest (suc b) (y ∷ ys) =
      let shorter : min (suc b) (length (y ∷ ys)) ≡ suc (min b (length ys)) = omega arith in
      rw shorter (ap (λ r. y ∷ r) (take_rest b ys))

  pub from_input-next :
      (xs : List S) (b d : ℕ) → from_input p xs d (min b (length xs - d)) ≡ take b (drop d xs)
  from_input-next xs b d = rw (← length-drop d xs) (take_rest b (drop d xs))

  -- The blocks of silence are what is taken from the buffer of one silent block.
  take-silence : (b n : ℕ) → take b (silence p n) ≡ silence p (min b n)
  take-silence zero n = ap (silence p) {x = 0} (omega arith)
  take-silence (suc b) zero = ap (silence p) {x = 0} (omega arith)
  take-silence (suc b) (suc n) =
      let more : min (suc b) (suc n) ≡ suc (min b n) = omega arith in
      rw more (ap (λ r. s_lit (pos 0) ∷ r) (take-silence b n))

  drop-silence : (d n : ℕ) → drop d (silence p n) ≡ silence p (n - d)
  drop-silence zero n = ap (silence p) {x = n} (omega arith)
  drop-silence (suc d) zero = ap (silence p) {x = 0} (omega arith)
  drop-silence (suc d) (suc n) = drop-silence d n ∙ ap (silence p) {x = n - d} (omega arith)

  silence-next : (b n d : ℕ) → take (min b (n - d)) (silence p b) ≡ take b (drop d (silence p n))
  silence-next b n d =
      take-silence (min b (n - d)) b
      ∙ ap (silence p) {x = min (min b (n - d)) b} (omega arith)
      ∙ sym (ap (take b) (drop-silence d n) ∙ take-silence b (n - d))

  -- A loop whose rounds take the next block of `input` plays the blocks of `input`.
  pub run_source :
      (source : ℕ → ℕ → List S) (input : List S) (n : ℕ) (e : Engine p)
      → length input ≡ n
      → 1 ≤ pos_part e.block_size
      → ((d : ℕ)
          → source d (min (pos_part e.block_size) (n - d))
            ≡ take (pos_part e.block_size) (drop d input))
      → run_blocks p (suc n) source n 0 e ≡ some (played input e)
  unfolding played
  run_source source input n e count one next =
      subst
        (λ k.
          run_blocks p (suc k) source k 0 e
          ≡ some (play p (cut (suc (length input)) (pos_part e.block_size) input) e))
        count
        (run_blocks-play p (suc (length input)) source input (pos_part e.block_size) 0 e
          (λ d _.
            subst
              (λ k.
                source d (min (pos_part e.block_size) (k - d))
                ≡ take (pos_part e.block_size) (drop d input))
              (sym count) (next d))
          one refl (omega arith))

  callback_input-duplex :
      (captured : List S) (e : Engine p) (d chunk : ℕ)
      → e.mode ≡ "duplex"
      → callback_input p (some captured) e d chunk ≡ from_input p captured d chunk
  unfolding callback_input
  callback_input-duplex captured e d chunk duplex = rw duplex refl

  -- In a duplex engine the live callback ends, for whatever number of frames it is asked: it applies
  -- what is queued, and plays what the device captured, cut into blocks.
  pub callback_process-captured :
      (captured : List S) (e : Engine p)
      → e.mode ≡ "duplex"
      → 1 ≤ pos_part e.block_size
      → callback_process p (some captured) (length captured) e
        ≡ some (played captured (drain_commands p e))
  unfolding callback_process drain_commands
  callback_process-captured captured e duplex one =
      let e1 = drain_commands p e in
      run_source (callback_input p (some captured) e1) captured (length captured) e1 refl one (λ d.
        callback_input-duplex captured e1 d (min (pos_part e.block_size) (length captured - d))
          duplex
        ∙ from_input-next captured (pos_part e.block_size) d)

  -- With nothing captured, the callback ends and plays silence, cut into blocks.
  pub callback_process-silence :
      (n : ℕ) (e : Engine p)
      → 1 ≤ pos_part e.block_size
      → callback_process p none n e ≡ some (played (silence p n) (drain_commands p e))
  unfolding callback_process drain_commands callback_input
  callback_process-silence n e one =
      run_source (callback_input p none (drain_commands p e)) (silence p n) n (drain_commands p e)
        (length-replicate n (s_lit (pos 0))) one (silence-next (pos_part e.block_size) n)
