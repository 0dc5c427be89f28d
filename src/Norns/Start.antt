-- ===== src/Norns/Start.antt =====
-- The host that `NornsSoftcut(...)` makes.
use softcut_py.Base.{
  ℕ, ◌*◌, ◌≡◌, refl, ◌∙◌, ap, sym, String, false, [], ◌∷◌, length, replicate, length-replicate,
  arith, string_eq, ap₂, Bool-cases, inl, inr,
}
use softcut_py.Base.Int.{ℤ, pos, negsuc, pos_part, ltb_ℤ}
use softcut_py.Base.Exec.{value_error, ok}
use softcut_py.Base.Exec.Gives.{Gives, Gives-ok, Gives-guard, Gives-and_then}
use softcut_py.Platform.{Platform}
use softcut_py.Sizes.{next_power_of_two}
use softcut_py.Wav.{Disk}
use softcut_py.Engine.{Engine}
use softcut_py.Engine.Methods.{new_engine, zeros}
use softcut_py.Norns.{Host, new_host, start_routing}
use softcut_py.Engine.Shape
use softcut_py.Norns.Shape.{Layout, start_routing-HasLayout}

pos_of : (i : ℤ) → ltb_ℤ i (pos 1) ≡ false → i ≡ pos (pos_part i)
pos_of (pos n) h = refl
pos_of (negsuc n) h = absurd (ground arith)

module _ (p : Platform) where
  open p use {F}

  -- The number of voices that was asked for, and a feedback gain for each pair of them.
  abbrev pub Sized : ℤ → Engine p → Type 0
  Sized voices e =
      (voices ≡ pos (length e.voices)) × (length e.fb ≡ length e.voices * length e.voices)

  replicate-Sized :
      {A B : Type 0} (i : ℤ)
      → ltb_ℤ i (pos 1) ≡ false
      → (a : A) (b : B)
      → (i ≡ pos (length (replicate (pos_part i) a)))
        × (length (replicate (pos_part i * pos_part i) b)
            ≡ length (replicate (pos_part i) a) * length (replicate (pos_part i) a))
  replicate-Sized i positive a b = (
    pos_of i positive ∙ ap pos (sym (length-replicate (pos_part i) a)),
    length-replicate (pos_part i * pos_part i) b
        ∙ sym (ap₂ ◌*◌ (length-replicate (pos_part i) a) (length-replicate (pos_part i) a)),
  )

  new_engine-Sized :
      (voices : ℤ) (sample_rate : F) (mode : String) (block_size out_channels : ℤ) (quirks : String)
      → Gives (Sized voices) (new_engine p voices sample_rate mode block_size out_channels quirks)
  unfolding new_engine
  new_engine-Sized voices sample_rate mode block_size out_channels quirks =
      Gives-guard (ltb_ℤ voices (pos 1)) value_error _ λ positive.
        search (Gives-ok, Gives-guard, Gives-and_then, replicate-Sized voices positive) depth 20

  zeros-Sized : (voices n : ℤ) (e : Engine p) → Sized voices e → Sized voices (zeros p n e).1
  unfolding zeros
  zeros-Sized voices n e sized = elim (Bool-cases (ltb_ℤ n (pos 0))) [
    | inl bad ↦ rw (bad, zeros) sized
    | inr good ↦ rw (good, zeros) sized
  ]

  start_routing-Sized :
      (voices : ℤ) (n : ℕ) (h : Host p)
      → h.voices ≡ voices
      → Sized voices h.engine
      → ((start_routing p n h).1.voices ≡ voices) × Sized voices (start_routing p n h).1.engine
  unfolding Shape.shape
  start_routing-Sized voices n h count sized =
      let same = ((start_routing-HasLayout p n).at h (record { same = refl })).same in
      (
        ap (λ (l : Layout F). l.voices) same ∙ count,
        (
          sized.0 ∙ sym (ap (λ (l : Layout F). pos l.shape.voice_count) same),
          ap (λ (l : Layout F). l.shape.gain_count) same
              ∙ sized.1
              ∙ sym (ap (λ (l : Layout F). l.shape.voice_count * l.shape.voice_count) same),
        ),
      )

  new_host-Gives :
      (sample_rate : F) (voices buffer_frames : ℤ) (mode quirks : String) (disk : Disk)
      → Gives
          (λ h. (h.voices ≡ voices) × Sized voices h.engine)
          (new_host p sample_rate voices buffer_frames mode quirks disk)
  unfolding new_host
  new_host-Gives sample_rate voices buffer_frames mode quirks disk =
      Gives-and_then (new_engine p voices sample_rate mode (pos 512) (pos 2) quirks) _ λ e made.
        let sized =
          (new_engine-Sized voices sample_rate mode (pos 512) (pos 2) quirks).holds e made in
        let n = pos (next_power_of_two buffer_frames) in
        let e1 = (zeros p n e).1 in
        let h : Host p = record {
          sample_rate = sample_rate;
          voices = voices;
          engine = (zeros p n e1).1;
          buf = (pos 1, length e.arrays) ∷ (pos 2, length e1.arrays) ∷ [];
          assign = [];
          disk = disk;
        } in
        let k = pos_part voices in
        Gives-and_then (start_routing p k h).0 (λ u. ok (start_routing p k h).1)
          λ u routed. Gives-ok (start_routing p k h).1 (
            start_routing-Sized voices k h refl
              (zeros-Sized voices n e1 (zeros-Sized voices n e sized)))

  -- A host that is made has the voices that were asked for, and a feedback gain for each pair of them.
  pub new_host-Sized :
      (sample_rate : F) (voices buffer_frames : ℤ) (mode quirks : String) (disk : Disk) (h : Host p)
      → new_host p sample_rate voices buffer_frames mode quirks disk ≡ ok h
      → (h.voices ≡ voices) × Sized voices h.engine
  new_host-Sized sample_rate voices buffer_frames mode quirks disk h made =
      (new_host-Gives sample_rate voices buffer_frames mode quirks disk).holds h made
