-- ===== src/Pairing.antt =====
-- Parts of cmd/novakey/pairing_proto.go: the limiter of hello messages, the binary frame and its
-- additional data.
pub mod Exchange
pub mod Bootstrap
use nova_key_daemon.Common.{
  ℕ, Bool, ◌||◌, ◌&&◌, not, [], ◌∷◌, ◌++◌, if◌then◌else◌, ltb, leb, ◌==◌, Bytes, bytes_dec, ◌=?◌,
  length, take, drop, Result, ok, ◌>>◌, guard, codes,
}
use nova_key_daemon.Common.Dict.{Dict, lookup, insert}
use nova_key_daemon.Common.Int64
use nova_key_daemon.Message.Wire.{be}
use nova_key_daemon.Message.Freshness.{RateWindow, or_zero, current_window}

abbrev pub hello_limit : ℕ → ℕ
hello_limit pair_hello_max_per_min =
    if Int64.le pair_hello_max_per_min 0 then 30 else pair_hello_max_per_min

abbrev pub counted : RateWindow → RateWindow
counted rw = record rw { count = Int64.add rw.count 1 }

-- Every hello is counted, also one that is refused.
unfoldable pub allow_pair_hello_from_ip : Dict RateWindow → ℕ → ℕ → Bytes → Bool × Dict RateWindow
unfolding lookup insert
allow_pair_hello_from_ip m pair_hello_max_per_min now ip =
    let rw = counted (current_window (or_zero (lookup ip m)) now) in
    (Int64.le rw.count (hello_limit pair_hello_max_per_min), insert ip rw m)

unfoldable pub make_pair_aad : Bytes → Bytes → Bytes
make_pair_aad ct nonce = codes "PAIR" ++ (ct ++ nonce)

pub data PairFrameError : Type 0 where
  no_ct_len invalid_ct_len no_ct no_nonce ciphertext_too_short : PairFrameError

-- Of the bytes that the peer sends until it closes the connection. `NonceSizeX` is 24.
unfoldable pub read_pair_binary_frame : Bytes → Result PairFrameError (Bytes × Bytes × Bytes)
read_pair_binary_frame sent = do
  guard (not (ltb (length sent) 2)) no_ct_len
  let ct_len = be (take 2 sent)
  guard (not (leb ct_len 0 || ltb 4096 ct_len)) invalid_ct_len
  let behind_len = drop 2 sent
  guard (not (ltb (length behind_len) ct_len)) no_ct
  let behind_ct = drop ct_len behind_len
  guard (not (ltb (length behind_ct) 24)) no_nonce
  let ciphertext = take 65536 (drop 24 behind_ct)
  guard (not (ltb (length ciphertext) 16)) ciphertext_too_short
  ok (take ct_len behind_len, take 24 behind_ct, ciphertext)

-- Newlines and carriage returns at the end go.
unfoldable pub trim_nl : Bytes → Bytes
unfolding bytes_dec
trim_nl [] = []
trim_nl (c ∷ s) =
    let rest = trim_nl s in if (rest =? []) && (c == 10 || c == 13) then [] else c ∷ rest
