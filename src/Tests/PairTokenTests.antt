-- ===== src/Tests/PairTokenTests.antt =====
-- A token that is accepted once.
use nova_key_daemon.Common.{◌≡◌, ◌≢◌, ◌≤◌, refl, true, [], ◌∷◌, Option, some, Bytes, bytes_dec}
use nova_key_daemon.PairToken.{PairToken, const_time_eq, consume_pair_token}
use nova_key_daemon.PairToken.Laws.{consume_pair_token-ok}

abbrev secret : Bytes
secret = 4 ∷ 2 ∷ []

abbrev other : Bytes
other = 4 ∷ 3 ∷ []

abbrev waiting : PairToken
waiting = record { active = true; token = secret; token_id = 4 ∷ []; expires = 90 }

abbrev decode : Bytes → Option Bytes
decode s = some s

consume_pair_token-ok_example :
    (true ≡ true) × (secret ≢ []) × (50 ≤ 90) × (decode secret ≡ some secret) × (secret ≡ secret)
unfolding consume_pair_token const_time_eq bytes_dec
consume_pair_token-ok_example = consume_pair_token-ok decode waiting 50 secret secret refl
