-- ===== src/Tests/Sessions.antt =====
-- Runs of the host and of the server.
use softcut_py.Base.{◌≡◌, refl, String, true, false, none, some, List, [], ◌∷◌, ◌++◌, arith}
use softcut_py.Base.Int.{pos, ◌+ℤ◌, ◌-ℤ◌, int_eq}
use softcut_py.Base.Exec.{Result, ok, err, index_error, for_each}
use softcut_py.Norns.{Host, call_method, position, voice_sync, new_host}
use softcut_py.Norns.Setters.{mirror, KeepsRest, call_method-mirror}
use softcut_py.Norns.Start.{Sized, new_host-Sized}
use softcut_py.Norns.Indexing.{voice_sync-zero}
use softcut_py.Norns.Shape.{layout}
use softcut_py.Osc
use softcut_py.Osc.Shape.{dispatch_all-layout}
use softcut_py.Osc.Sequence.{dispatch_all-mirror}
use softcut_py.Osc.Routes.{dispatch-mirror, is_method}
use softcut_py.Osc.Reports.{always, reports, remembered, changes, scan-retry}
use softcut_py.TouchOsc.{Param, message, scaled, all_rows}
use softcut_py.TouchOsc.Routes.{row-dispatch, named_by}
use softcut_py.Tests.{test_platform, test_disk, test_engine, test_host, test_server}
use softcut_py.Engine.{cut_to}
use softcut_py.Engine.Methods.{position_at}

abbrev Message : Type 0
Message = String × List (Osc.Arg test_platform)

abbrev rate_message : Message
rate_message = ("/set/param/cut/rate", Osc.int (pos 1) ∷ Osc.float (pos 2) ∷ [])

abbrev quit_message : Message
quit_message = ("/quit", [])

dispatch_all-layout_example :
    layout test_platform
      (Osc.dispatch_all test_platform
        (rate_message ∷ ("/softcut/buffer/clear", []) ∷ [])
        test_server).host
    ≡ layout test_platform test_host
dispatch_all-layout_example =
    dispatch_all-layout test_platform (rate_message ∷ ("/softcut/buffer/clear", []) ∷ [])
      test_server

dispatch-mirror_example :
    (mirror test_platform 1 "rate"
        (Osc.dispatch test_platform "/set/param/cut/rate"
          (Osc.int (pos 1) ∷ Osc.float (pos 2) ∷ [])
          test_server).host.engine
      ≡ some (pos 2))
    × KeepsRest test_platform test_server.host.engine
        (Osc.dispatch test_platform "/set/param/cut/rate"
          (Osc.int (pos 1) ∷ Osc.float (pos 2) ∷ [])
          test_server).host.engine
dispatch-mirror_example =
    dispatch-mirror test_platform "rate" "rate" "rate" 1 (pos 2) [] test_server 1 "rate" refl refl
      refl (omega arith)

call_method-mirror_example :
    ((call_method test_platform "level" (pos 1) (pos 5) test_host).0 ≡ ok tt)
    × (mirror test_platform 0 "level"
          (call_method test_platform "level" (pos 1) (pos 5) test_host).1.engine
        ≡ some (pos 5))
    × KeepsRest test_platform test_engine
        (call_method test_platform "level" (pos 1) (pos 5) test_host).1.engine
call_method-mirror_example =
    call_method-mirror test_platform "level" "level" 0 (pos 5) test_host 0 "level" refl refl
      (omega arith)

voice_sync-zero_example :
    (voice_sync test_platform (pos 0) (pos 1) (pos 0) test_host ≡ (
      ok tt,
      record test_host {
        engine =
            cut_to test_platform 1 (position_at test_platform 0 test_engine +ℤ pos 0) test_engine;
      },
    ))
    × (position test_platform (pos 0) (pos 0) test_host ≡ (err index_error, test_host))
voice_sync-zero_example = voice_sync-zero test_platform 1 0 (pos 0) test_host refl (omega arith)

scan-retry_example :
    reports test_platform (λ i. false) 0 (pos 3 ∷ pos 4 ∷ []) (none ∷ none ∷ [])
      ++ reports test_platform always 0
          (pos 3 ∷ pos 4 ∷ [])
          (remembered test_platform (λ i. false) 0 (pos 3 ∷ pos 4 ∷ []) (none ∷ none ∷ []))
    ≡ changes test_platform 0 (pos 3 ∷ pos 4 ∷ []) (none ∷ none ∷ [])
scan-retry_example =
    scan-retry test_platform (λ i. false) 0 (pos 3 ∷ pos 4 ∷ []) (none ∷ none ∷ []) refl

abbrev python_osc : String
python_osc = "python-osc"

abbrev auto : String
auto = "auto"

abbrev ok_or {ℓ} : {A : Type ℓ} → Result A → A → A
ok_or (ok a) d = a
ok_or (err e) d = d

-- Two voices and buffers for three frames.
unfoldable new_result : Result (Host test_platform)
unfolding new_host
new_result = new_host test_platform (pos 1) (pos 2) (pos 3) "duplex" "upstream" test_disk

new_host-Sized_example :
    ((ok_or new_result test_host).voices ≡ pos 2)
    × Sized test_platform (pos 2) (ok_or new_result test_host).engine
unfolding new_result for_each ◌-ℤ◌
new_host-Sized_example =
    new_host-Sized test_platform (pos 1) (pos 2) (pos 3) "duplex" "upstream" test_disk
      (ok_or new_result test_host) refl

abbrev moved_row : Param test_platform
moved_row = record {
  label = "rec level";
  address = "/set/param/cut/rec_level";
  span = (pos 0, pos 1);
  toggle = false;
  key = "";
  note = "";
}

row-dispatch_example :
    (name : String) × (is_method name ≡ true)
    × (named_by "/set/param/cut/rec_level" name ≡ true)
    × (Osc.dispatch test_platform "/set/param/cut/rec_level"
          (message test_platform moved_row 1 (pos 1)).1
          test_server
        ≡ record test_server {
          host =
              (call_method test_platform name
                (pos 1 +ℤ pos 1)
                (scaled test_platform (pos 0, pos 1) (pos 1))
                test_host).1;
        })
unfolding message all_rows
row-dispatch_example =
    row-dispatch test_platform (pos 32) (pos 2) 10 moved_row 1 (pos 1) test_server refl

abbrev made_server : Osc.Server test_platform
made_server = record test_server { host = ok_or new_result test_host }

dispatch_all-mirror_example :
    (mirror test_platform 1 "rate"
        (Osc.dispatch test_platform "/set/param/cut/rate"
          (Osc.int (pos 1) ∷ Osc.float (pos 2) ∷ [])
          (Osc.dispatch_all test_platform (("/softcut/reset", []) ∷ []) made_server)).host.engine
      ≡ some (pos 2))
    × KeepsRest test_platform
        (Osc.dispatch_all test_platform (("/softcut/reset", []) ∷ []) made_server).host.engine
        (Osc.dispatch test_platform "/set/param/cut/rate"
          (Osc.int (pos 1) ∷ Osc.float (pos 2) ∷ [])
          (Osc.dispatch_all test_platform (("/softcut/reset", []) ∷ []) made_server)).host.engine
unfolding new_result for_each ◌-ℤ◌
dispatch_all-mirror_example =
    dispatch_all-mirror test_platform (pos 1) 2 (pos 3) "duplex" "upstream" test_disk made_server
      (("/softcut/reset", []) ∷ []) "rate" "rate" "rate" 1 (pos 2) 1 "rate" refl refl refl
      (omega arith)
