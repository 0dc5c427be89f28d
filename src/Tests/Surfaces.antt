-- ===== src/Tests/Surfaces.antt =====
-- Runs of the layout generator.
use softcut_py.Base.{◌≡◌, refl, List, [], length}
use softcut_py.Base.Int.{pos, ◌-ℤ◌, ◌*ℤ◌}
use softcut_py.Base.Exec.{Result, ok, err}
use softcut_py.TouchOsc.Pages.{Control, build}
use softcut_py.TouchOsc.Widgets.{Widget, IsLaid, sent}
use softcut_py.TouchOsc.Surface.Document.{Options, default_options, document}
use softcut_py.TouchOsc.Surface.Agrees.{document-build}
use softcut_py.Tests.{test_platform}

abbrev two_voices : Options test_platform
two_voices = record (default_options test_platform) { voices = pos 2 }

abbrev list_or {ℓ} : {A : Type ℓ} → Result (List A) → List A
list_or (ok xs) = xs
list_or (err e) = []

abbrev all_controls : List (Control test_platform)
all_controls = list_or (build test_platform (pos 2) (pos 32) (pos 2) "loop.wav" "softcut-out.wav")

document-build_example :
    (root : Widget test_platform) × (document test_platform two_voices ≡ ok root)
    × IsLaid test_platform root
    × (sent test_platform root ≡ all_controls)
unfolding build ◌-ℤ◌ ◌*ℤ◌
document-build_example =
    document-build test_platform two_voices all_controls
      (record {
        unit_room = refl;
        pan_room = refl;
        rate_room = refl;
        time_room = refl;
        quant_room = refl;
        offset_room = refl;
        pre_room = refl;
        post_room = refl;
        rq_room = refl;
      })
      refl

count_controls : length all_controls ≡ 107
unfolding build ◌-ℤ◌ ◌*ℤ◌
count_controls = refl
