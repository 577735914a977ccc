-- ===== src/PairToken.antt =====
-- cmd/novakey/pair_token.go: the one-time token that a phone presents to pair.
pub mod Laws
use nova_key_daemon.Common.{
  ℕ, Bool, true, false, not, ◌&&◌, ◌||◌, List, [], ◌∷◌, Option, none, some, if◌then◌else◌, ltb,
  ◌==◌, Bytes, bytes_dec, ◌=?◌, length, take, Result, ok, err,
}
use nova_key_daemon.Common.Hex
use nova_key_daemon.Common.Int64
use nova_key_daemon.Gates.Clock.{add_time}

-- A nil token is the empty text; the path of the QR image is left out.
pub record PairToken : Type 0 where
  pub active : Bool
  pub token : Bytes
  pub token_id : Bytes
  pub expires : ℕ

abbrev pub no_token : PairToken
no_token = record { active = false; token = []; token_id = []; expires = 0 }

pub data TokenError : Type 0 where
  not_active expired bad_encoding unauthorized : TokenError

-- The loop of `constTimeEq`: `v |= a[i] ^ b[i]` stays 0 exactly as long as the bytes are equal, so
-- the model keeps whether `v` is 0. It looks at every byte.
unfoldable pub all_equal : Bool → Bytes → Bytes → Bool
all_equal v_is_zero [] b = v_is_zero
all_equal v_is_zero (x ∷ a) [] = v_is_zero
all_equal v_is_zero (x ∷ a) (y ∷ b) = all_equal (v_is_zero && x == y) a b

unfoldable pub const_time_eq : Bytes → Bytes → Bool
unfolding all_equal
const_time_eq a b = if not (length a == length b) then false else all_equal true a b

abbrev pub ten_minutes : ℕ
ten_minutes = 600_000_000_000

-- Whether the token that is there is used again.
abbrev pub reusable : PairToken → ℕ → Bool
reusable p now = p.active && ltb now p.expires && not (p.token =? [])

-- The arguments: the clock readings for the test and for the expiry, the 16 bytes drawn at random,
-- and the time to live.
unfoldable pub start_or_refresh_pair_token : PairToken → ℕ → ℕ → Bytes → ℕ → PairToken
unfolding bytes_dec add_time Hex.encode
start_or_refresh_pair_token p now now_expiry drawn ttl = if reusable p now then p else record {
  active = true;
  token = drawn;
  token_id = Hex.encode (take 4 drawn);
  expires = add_time now_expiry (if Int64.le ttl 0 then ten_minutes else ttl);
}

-- From the decoded token on.
unfoldable pub check_token : PairToken → Option Bytes → Result TokenError Bytes × PairToken
unfolding const_time_eq
check_token p none = (err bad_encoding, p)
check_token p (some got) =
    if not (const_time_eq got p.token) then (err unauthorized, p) else (ok p.token, no_token)

-- `base64.RawURLEncoding.DecodeString` is the first argument.
unfoldable pub consume_pair_token :
    (Bytes → Option Bytes) → PairToken → ℕ → Bytes → Result TokenError Bytes × PairToken
unfolding bytes_dec check_token
consume_pair_token decode p now token_b64 =
    if not p.active || (p.token =? [])
    then (err not_active, p)
    else if ltb p.expires now
    then (err expired, record p { active = false; token = [] })
    else check_token p (decode token_b64)

unfoldable pub is_pairing_active : PairToken → ℕ → Bool
unfolding bytes_dec
is_pairing_active p now = p.active && not (p.token =? []) && ltb now p.expires
