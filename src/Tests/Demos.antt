-- ===== src/Tests/Demos.antt =====
-- A run of the demo of the norns facade, on a host with six voices.
use softcut_py.Base.{ℕ, List, Bool, true, false, Option, none, some, [], ◌∷◌, replicate, string_eq}
use softcut_py.Base.Int.{ℤ, pos, int_eq, eqb_ℤ}
use softcut_py.Base.Exec.{Result, ok, err}
use softcut_py.Engine.Shape
use softcut_py.Norns.{Host}
use softcut_py.Norns.Setters.{mirror}
use softcut_py.Osc
use softcut_py.Demos.OscSurface.{Round}
use softcut_py.Tests.{test_platform, test_voice, test_engine, test_host}

abbrev six_voices : Host test_platform
six_voices = record test_host {
  voices = pos 6;
  engine = record test_engine { voices = replicate 6 test_voice };
}

-- The first datagram is lost and the second arrives twice.
abbrev rounds : List Round
rounds = record { arrives = 0; late = false } ∷ record { arrives = 2; late = true } ∷ []

abbrev result_or : Result (List ℕ) → List ℕ
result_or (ok bytes) = bytes
result_or (err e) = []

abbrev reads_two : Option ℤ → Bool
reads_two none = false
reads_two (some x) = eqb_ℤ x (pos 2)

abbrev at_two : Osc.Server test_platform → Bool
at_two s = reads_two (mirror test_platform 1 "rate" s.host.engine)
