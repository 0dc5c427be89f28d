-- ===== src/Osc/Sequence.antt =====
-- A parameter message that comes after other messages.
use softcut_py.Base.{
  ℕ, ◌<◌, ◌≡◌, ◌∙◌, ap, sym, subst, String, some, List, [], ◌∷◌, length, string_eq,
}
use softcut_py.Base.Int.{ℤ, pos, pos_part}
use softcut_py.Base.Dict.{lookup}
use softcut_py.Base.Exec.{ok}
use softcut_py.Platform.{Platform}
use softcut_py.Engine.Shape
use softcut_py.Wav.{Disk}
use softcut_py.Norns.{new_host, float_params}
use softcut_py.Norns.Shape.{Layout}
use softcut_py.Norns.Setters.{mirror, replaced, KeepsRest}
use softcut_py.Norns.Start.{new_host-Sized}
use softcut_py.Osc
use softcut_py.Osc.{param_map}
use softcut_py.Osc.Shape.{dispatch_all-layout}
use softcut_py.Osc.Routes.{param_address, dispatch-mirror}

module _ (p : Platform) where
  open p use {F}

  voice_count-dispatch_all :
      (messages : List (String × List (Osc.Arg p))) (s : Osc.Server p)
      → length (Osc.dispatch_all p messages s).host.engine.voices ≡ length s.host.engine.voices
  unfolding Shape.shape
  voice_count-dispatch_all messages s =
      ap (λ (l : Layout F). l.shape.voice_count) (dispatch_all-layout p messages s)

  voices-dispatch_all :
      (messages : List (String × List (Osc.Arg p))) (s : Osc.Server p)
      → (Osc.dispatch_all p messages s).host.voices ≡ s.host.voices
  voices-dispatch_all messages s =
      ap (λ (l : Layout F). l.voices) (dispatch_all-layout p messages s)

  -- On a server whose host was made with `n` voices, after any messages, a message for a float parameter
  -- of one of the `n` voices makes that property of that voice read the value in single precision, and
  -- leaves what every other float property of it and of the other voices reads. The flags of all voices,
  -- the arrays they hold, the contents of the arrays, the gains, the native queue and the running state
  -- stay.
  pub dispatch_all-mirror :
      (sample_rate : F) (n : ℕ) (buffer_frames : ℤ) (mode quirks : String) (disk : Disk)
      (s : Osc.Server p) (before : List (String × List (Osc.Arg p))) (suffix name attr : String)
      (k : ℕ) (x : F) (j : ℕ) (a : String)
      → new_host p sample_rate (pos n) buffer_frames mode quirks disk ≡ ok s.host
      → lookup suffix param_map ≡ some name
      → lookup name float_params ≡ some attr
      → k < n
      → (mirror p j a
            (Osc.dispatch p
              (param_address suffix)
              (Osc.int (pos k) ∷ Osc.float x ∷ [])
              (Osc.dispatch_all p before s)).host.engine
          ≡ replaced p k attr (p.narrow x) (Osc.dispatch_all p before s).host.engine j a)
        × KeepsRest p
            (Osc.dispatch_all p before s).host.engine
            (Osc.dispatch p
              (param_address suffix)
              (Osc.int (pos k) ∷ Osc.float x ∷ [])
              (Osc.dispatch_all p before s)).host.engine
  dispatch_all-mirror sample_rate n buffer_frames mode quirks disk s before suffix name attr k x j a
        made found named lt =
      let (count, sized) =
        new_host-Sized p sample_rate (pos n) buffer_frames mode quirks disk s.host made in
      let kept = voice_count-dispatch_all before s in
      let same = voices-dispatch_all before s ∙ count ∙ sized.0 ∙ sym (ap pos kept) in
      dispatch-mirror p suffix name attr k x [] (Osc.dispatch_all p before s) j a found named same
        (subst (λ (m : ℕ). k < m) (ap pos_part sized.0 ∙ sym kept) lt)
