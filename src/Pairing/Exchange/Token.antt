-- ===== src/Pairing/Exchange/Token.antt =====
-- One token, one registration.
use nova_key_daemon.Common.{ℕ, ◌≡◌, ◌≢◌, refl, ap, sym, ◌∙◌, Bool, Option, Bytes, ok, err}
use nova_key_daemon.Message.Crypto.{Crypto}
use nova_key_daemon.PairToken.{not_active, no_token, consume_pair_token}
use nova_key_daemon.Devices.Write.{DeviceStore}
use nova_key_daemon.Pairing.Exchange.{PairFormats, PairInput, PairDaemon, Outcome, handle_pair_conn}
use nova_key_daemon.Pairing.Exchange.Authorized.{Changes, untouched, registered}
use nova_key_daemon.Pairing.Exchange.Writes.{handle_pair_conn-Changes}

consume-no_token :
    (decode : Bytes → Option Bytes) (now : ℕ) (sent : Bytes)
    → (consume_pair_token decode no_token now sent).0 ≡ err not_active
unfolding consume_pair_token
consume-no_token decode now sent = refl

module _ {S : Type 0} (C : Crypto) (F : PairFormats) (hello_max : ℕ) (rotate : Bool)
    (D : DeviceStore S) where
  spent_by-Changes :
      (I : PairInput) (d : PairDaemon S) {o : Outcome S}
      → Changes C F hello_max rotate D I d o
      → o.daemon.store ≢ d.store
      → o.daemon.token ≡ no_token
  spent_by-Changes I d (untouched s k x r) n = absurd (n s)
  spent_by-Changes I d (registered reg m t s f) n = t

  unchanged_without_token :
      (I : PairInput) (d : PairDaemon S) {o : Outcome S}
      → d.token ≡ no_token
      → Changes C F hello_max rotate D I d o
      → o.daemon.store ≡ d.store
  unchanged_without_token I d e (untouched s k x r) = s
  unchanged_without_token I d e (registered reg m t s f) = absurd (
      refused (
        sym m.greeted.consumed
        ∙ ap
            (λ p.
              (consume_pair_token F.decode_token p I.token_time m.greeted.hello_message.token).0)
            e
        ∙ consume-no_token F.decode_token I.token_time m.greeted.hello_message.token))
    where
      refused : {x : Bytes} → ok x ≢ err not_active
      refused y = cc

  -- After a connection that changed the stored devices, the next one cannot, whatever it sends: it
  -- takes a new token first.
  pub handle_pair_conn_once :
      (I J : PairInput) (d : PairDaemon S)
      → (handle_pair_conn C F hello_max rotate D I d).daemon.store ≢ d.store
      → (handle_pair_conn C F hello_max rotate D J
          (handle_pair_conn C F hello_max rotate D I d).daemon).daemon.store
        ≡ (handle_pair_conn C F hello_max rotate D I d).daemon.store
  handle_pair_conn_once I J d n =
      let first = handle_pair_conn-Changes C F hello_max rotate D I d in
      let next = (handle_pair_conn C F hello_max rotate D I d).daemon in
      unchanged_without_token J next (spent_by-Changes I d first n)
        (handle_pair_conn-Changes C F hello_max rotate D J next)
