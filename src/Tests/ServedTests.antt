-- ===== src/Tests/ServedTests.antt =====
-- An arm message of the client goes all the way.
use nova_key_daemon.Common.{
  ◌≡◌, refl, ap, sym, true, false, [], ◌∷◌, ◌++◌, arith, Bytes, bytes_dec, length, Result, ok,
}
use nova_key_daemon.Common.Int64
use nova_key_daemon.Message.Crypto.Toy.{toy, toy-IsLawful}
use nova_key_daemon.Message.Freshness.{validate_freshness_and_rate}
use nova_key_daemon.Message.Outer.{outer_keys}
use nova_key_daemon.Router.Laws.{route_line_msg}
use nova_key_daemon.Client.Frame.{ClientError, encode_inner_message_frame, encrypt_v3_outer_frame}
use nova_key_daemon.Client.Commands.{request}
use nova_key_daemon.Client.Served.{IsServed, request-IsServed}
use nova_key_daemon.Tests.{device, client_keys, formats, desk, clock, closed_daemon, frame_with}

-- An arm message of "d" with the payload "5".
abbrev inner_arm : Bytes
inner_arm = 1 ∷ 3 ∷ 0 ∷ 1 ∷ 0 ∷ 0 ∷ 0 ∷ 1 ∷ 100 ∷ 53 ∷ []

fits :
    (frame : Bytes)
    → encrypt_v3_outer_frame toy client_keys [] 1000 (5 ∷ 6 ∷ []) inner_arm ≡ ok frame
    → Int64.lt closed_daemon.cfg.max_payload_len (length frame) ≡ false
unfolding encrypt_v3_outer_frame bytes_dec
fits frame h = sym (ap (λ f. Int64.lt 4096 (length f)) (same h))
  where
    same :
        ◌≡◌ {A = Result ClientError Bytes} (ok (frame_with 3 53)) (ok frame)
        → frame_with 3 53 ≡ frame
    same e = cc

request-IsServed_example :
    IsServed toy formats desk clock 7 toy-IsLawful client_keys device
      (8 ∷ [])
      []
      1000
      (5 ∷ 6 ∷ [])
      inner_arm
      (route_line_msg ++ (0 ∷ 30 ∷ frame_with 3 53))
      3
      (53 ∷ [])
      closed_daemon
      formats.unicode
      true
unfolding request encode_inner_message_frame encrypt_v3_outer_frame outer_keys
    validate_freshness_and_rate bytes_dec
request-IsServed_example =
    request-IsServed toy formats desk clock 7 toy-IsLawful client_keys device (8 ∷ []) [] 1000
      (5 ∷ 6 ∷ []) inner_arm (route_line_msg ++ (0 ∷ 30 ∷ frame_with 3 53)) 3 (53 ∷ [])
      closed_daemon formats.unicode true refl (omega arith) refl refl refl refl refl (omega arith)
      refl fits
