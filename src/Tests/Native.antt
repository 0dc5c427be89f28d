-- ===== src/Tests/Native.antt =====
-- Runs of the native transport.
use softcut_py.Base.{◌≡◌, refl, true, none, List, [], ◌∷◌, ◌++◌, map}
use softcut_py.Base.Int.{pos}
use softcut_py.Platform.{as_int32}
use softcut_py.Osc
use softcut_py.Osc.Native.{tag_i, tag_f, delivered, receive, Tagged}
use softcut_py.Osc.Native.Agrees.{NumberLaws, server_drained, receive-dispatch}
use softcut_py.Osc.NativePoll.{NativePoll, native_poll_once, as_sent, native_poll_once-twice}
use softcut_py.Osc.Poll.{phases}
use softcut_py.Osc.Reports.{changes}
use softcut_py.Tests.{test_platform, test_server, test_engine}

abbrev test_numbers : NumberLaws test_platform
test_numbers = record {
  exact = λ x. refl;
  zero_test = λ x. refl;
  int_value = λ i. i;
  int_float = λ i h. refl;
  int_exact = λ i h. refl;
  int_zero_test = λ i h. refl;
}

abbrev rec_on : List (Tagged test_platform)
rec_on = tag_i (pos 1) ∷ tag_f (pos 1) ∷ []

receive-dispatch_example :
    server_drained test_platform
      (receive test_platform "/set/param/cut/rec_flag" rec_on test_server)
    ≡ server_drained test_platform (
        Osc.dispatch test_platform "/set/param/cut/rec_flag"
          (delivered test_platform rec_on)
          test_server)
unfolding as_int32
receive-dispatch_example =
    receive-dispatch test_platform test_numbers "/set/param/cut/rec_flag" rec_on test_server
      (refl, tt) refl (record { no_change = refl; no_osc_change = refl })

abbrev test_poll : NativePoll test_platform
test_poll = record { last = none ∷ none ∷ []; running = true; sent = [] }

native_poll_once-twice_example :
    (native_poll_once test_platform test_engine.voices
      (native_poll_once test_platform test_engine.voices test_poll)).sent
    ≡ []
      ++ map
          (as_sent test_platform)
          (changes test_platform 0 (phases test_platform test_engine.voices) test_poll.last)
native_poll_once-twice_example =
    native_poll_once-twice test_platform test_engine.voices test_poll refl
