-- ===== src/Demos/NornsApi/Playlist.antt =====
-- The patch of voice 1 after each setup of demos/12_norns_api.py.
use softcut_py.Base.{◌≡◌, String, Option, some, List, [], ◌∷◌, ◌++◌}
use softcut_py.Base.Int.{pos, negsuc, int_eq}
use softcut_py.Base.Dict.{Dict}
use softcut_py.Platform.{Platform}
use softcut_py.Demos.NornsApi.{
  decimal, loop_length, rev_start, rev_dur, Step, forward_loop, low_pass, octave_down, backwards,
  stereo, copied_loop,
}
use softcut_py.Demos.NornsApi.Writes.{Writes, written}
use softcut_py.Demos.NornsApi.Patches.{Entry, writes}

-- What holds of every entry holds of one that is found.
module _ {ℓ} {V : Type ℓ} (P : String → V → Type 0) where
  abbrev Entries : Dict String V → Type 0
  Entries [] = Unit {0}
  Entries ((k, v) ∷ d) = P k v × Entries d

module _ (p : Platform) where
  open p use {F, S, lit, fadd, narrow}

  -- A looping voice: rate, level, pan, the loop and the fade time.
  abbrev looping : F → F → F → F → F → F → Dict String F
  looping rate level pan first last fade =
      ("rate", rate)
      ∷ ("level", level)
      ∷ ("pan", pan)
      ∷ ("loop_start", first)
      ∷ ("loop_end", last)
      ∷ ("fade_time", fade)
      ∷ []

  abbrev dry_filter : Dict String F
  dry_filter = ("post_filter_dry", lit (pos 1)) ∷ ("post_filter_lp", lit (pos 0)) ∷ []

  abbrev forward_at : F → Dict String F
  forward_at rate =
      looping rate (decimal p (pos 85) 100) (lit (pos 0)) (lit (pos 0)) (loop_length p)
        (decimal p (pos 1) 100)

  -- What voice 1 is to play with.
  abbrev pub patch : Step → Dict String F
  patch forward_loop = forward_at (lit (pos 1)) ++ dry_filter
  patch low_pass =
      forward_at (lit (pos 1))
      ++ (("post_filter_dry", lit (pos 0))
          ∷ ("post_filter_lp", lit (pos 1))
          ∷ ("post_filter_fc", lit (pos 800))
          ∷ [])
  patch octave_down = forward_at (decimal p (pos 1) 2) ++ dry_filter
  patch backwards = forward_at (lit (negsuc 0)) ++ dry_filter
  patch stereo =
      looping (lit (pos 1)) (decimal p (pos 8) 10) (decimal p (negsuc 5) 10) (lit (pos 0))
        (loop_length p) (decimal p (pos 1) 100)
  patch copied_loop =
      looping (lit (pos 1)) (decimal p (pos 85) 100) (lit (pos 0)) (rev_start p)
        (fadd (rev_start p) (rev_dur p)) (decimal p (pos 2) 100)
      ++ dry_filter

  -- The last write of each parameter of voice 1 is that of the patch.
  IsPatch : Step → (String → Option S) → Type 0
  IsPatch s old = Entries (λ k x. written p (writes p s) 0 k (old k) ≡ some (narrow x)) (patch s)

  abbrev all_writes : List Step → List (Entry p)
  all_writes [] = []
  all_writes (s ∷ ss) = writes p s ++ all_writes ss
