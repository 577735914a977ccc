-- ===== src/Pairing/Bootstrap/Laws.antt =====
-- Whatever the route, the devices change only for a token that is accepted, and it is spent.
use nova_key_daemon.Common.{
  ℕ, ◌≡◌, inl, inr, refl, ap, sym, ◌∙◌, Bool, true, false, not, ◌||◌, [], ◌∷◌, ◌++◌, Option, none,
  some, Bool-cases, ◌=?◌, ◌==◌, if◌then◌else◌, Bytes, codes, length, Result, ok, err,
}
use nova_key_daemon.Common.Dict.{Dict}
use nova_key_daemon.Message.Crypto.{Crypto}
use nova_key_daemon.Message.Outer.{DeviceState}
use nova_key_daemon.PairToken.{PairToken, TokenError, no_token, consume_pair_token}
use nova_key_daemon.Router.{read_string}
use nova_key_daemon.Devices.Write.{
  StoreError, DeviceStore, write_devices_file, reload_devices_from_disk,
}
use nova_key_daemon.Pairing.{trim_nl}
use nova_key_daemon.Pairing.Exchange.{
  PairHello, PairError, PairFormats, PairInput, PairDaemon, Outcome, failed,
}
use nova_key_daemon.Pairing.Exchange.Authorized.{Changes, untouched, registered}
use nova_key_daemon.Pairing.Exchange.Writes.{handle_pair_conn-Changes, consume_pair_token-spent}
use nova_key_daemon.Pairing.Bootstrap.{
  BootstrapFormats, bootstrap_id, bootstrap_key, answer, reloaded, stored, consumed, requested,
  line_read, handle_pair_bootstrap_tcp, completed, complete_read, handle_pair_complete_tcp,
  handle_pair_conn_with_route,
}

module _ {S : Type 0} (F : PairFormats) (I : PairInput) (d : PairDaemon S) where
  -- The devices are as they were, or the token in the message on the first line of what was sent was
  -- accepted, and is spent.
  pub data IsSpent (o : Outcome S) : Type 0 where
    kept : o.daemon.store ≡ d.store → IsSpent o
    spent :
        (line rest token : Bytes) (req : PairHello)
        → read_string I.sent ≡ some (line, rest)
        → F.unmarshal_hello (trim_nl line) ≡ some req
        → (consume_pair_token F.decode_token d.token I.token_time req.token).0 ≡ ok token
        → o.daemon.token ≡ no_token
        → IsSpent o

  module _ (B : BootstrapFormats) (listen_addr : Bytes) (D : DeviceStore S) where
    answer-daemon :
        (text : Bytes) (e : PairDaemon S) → (answer F B listen_addr D I text e).daemon ≡ e
    answer-daemon text e = flag I.ack_writes
      where
        flag :
            (b : Bool)
            → (if not b then failed PairError.ack_not_written [] e else record {
              result = ok tt;
              written = (text ++ (10 ∷ [])) ∷ [];
              daemon = e;
            }).daemon
              ≡ e
        flag true = refl
        flag false = refl

    reloaded-token :
        (e : PairDaemon S) (r : Result StoreError (Unit {0}) × Option (Dict DeviceState) × S)
        → (reloaded F B listen_addr D I e r).daemon.token ≡ e.token
    reloaded-token e (err x, m, s) = refl
    reloaded-token e (ok u, m, s) = ap (λ x. x.token) (answer-daemon _ _)

    stored-token :
        (e : PairDaemon S) (r : Result StoreError (Unit {0}) × S)
        → (stored F B listen_addr D I e r).daemon.token ≡ e.token
    stored-token e (err x, s) = refl
    stored-token e (ok u, s) = reloaded-token e (reload_devices_from_disk D e.keys.devices s)

    consumed-IsSpent :
        (line rest : Bytes) (req : PairHello) (r : Result TokenError Bytes × PairToken)
        → read_string I.sent ≡ some (line, rest)
        → F.unmarshal_hello (trim_nl line) ≡ some req
        → consume_pair_token F.decode_token d.token I.token_time req.token ≡ r
        → IsSpent (consumed F B listen_addr D I d r)
    consumed-IsSpent line rest req (err x, t) reads parses c = kept refl
    consumed-IsSpent line rest req (ok token, t) reads parses c =
        let taken = ap (λ r. r.0) c in
        spent line rest token req reads parses taken (
          stored-token (record d { token = t })
            (write_devices_file D (bootstrap_id F B listen_addr D I)
              (bootstrap_key F B listen_addr D I) d.store)
          ∙ sym (ap (λ r. r.1) c)
          ∙ consume_pair_token-spent F.decode_token d.token I.token_time req.token token taken)

    requested-IsSpent :
        (line rest : Bytes) (o : Option PairHello)
        → read_string I.sent ≡ some (line, rest)
        → F.unmarshal_hello (trim_nl line) ≡ o
        → IsSpent (requested F B listen_addr D I d o)
    requested-IsSpent line rest none reads parses = kept refl
    requested-IsSpent line rest (some req) reads parses =
        elim (Bool-cases (not (req.op =? codes "bootstrap") || not (req.v == 1))) [
          | inl b ↦ rw b (kept refl)
          | inr b ↦ elim (Bool-cases (req.token =? [])) [
            | inl z ↦ rw (b, z) (kept refl)
            | inr z ↦ rw (b, z) (consumed-IsSpent line rest req _ reads parses refl)
          ]
        ]

    bootstrap_read-IsSpent :
        (o : Option (Bytes × Bytes))
        → read_string I.sent ≡ o
        → IsSpent (line_read F B listen_addr D I d o)
    bootstrap_read-IsSpent none reads = kept refl
    bootstrap_read-IsSpent (some (line, rest)) reads =
        requested-IsSpent line rest (F.unmarshal_hello (trim_nl line)) reads refl

    handle_pair_bootstrap_tcp-IsSpent : IsSpent (handle_pair_bootstrap_tcp F B listen_addr D I d)
    unfolding handle_pair_bootstrap_tcp
    handle_pair_bootstrap_tcp-IsSpent = elim (Bool-cases (length d.keys.server_encap_key == 0)) [
      | inl z ↦ rw z (kept refl)
      | inr z ↦ rw z (bootstrap_read-IsSpent (read_string I.sent) refl)
    ]

    completed-IsSpent : (o : Option PairHello) → IsSpent (completed F B listen_addr D I d o)
    completed-IsSpent none = kept refl
    completed-IsSpent (some req) =
        elim (Bool-cases (not (req.op =? codes "complete") || not (req.v == 1))) [
          | inl b ↦ rw b (kept refl)
          | inr b ↦ rw b (kept (ap (λ x. x.store) (answer-daemon B.complete_ack d)))
        ]

    complete_read-IsSpent :
        (o : Option (Bytes × Bytes)) → IsSpent (complete_read F B listen_addr D I d o)
    complete_read-IsSpent none = kept refl
    complete_read-IsSpent (some (line, rest)) = completed-IsSpent (F.unmarshal_hello (trim_nl line))

    handle_pair_complete_tcp-IsSpent : IsSpent (handle_pair_complete_tcp F B listen_addr D I d)
    unfolding handle_pair_complete_tcp
    handle_pair_complete_tcp-IsSpent = complete_read-IsSpent (read_string I.sent)

    pair-IsSpent :
        (C : Crypto) (hello_max : ℕ) (rotate : Bool) {o : Outcome S}
        → Changes C F hello_max rotate D I d o
        → IsSpent o
    pair-IsSpent C hello_max rotate (untouched s k x r) = kept s
    pair-IsSpent C hello_max rotate (registered reg m t s f) =
        let g = m.greeted in
        spent g.line m.rest m.token g.hello_message g.reads g.parses g.consumed t

    -- On every route of pairing the stored devices stay as they are, or the token in the message on the
    -- first line of what was sent was accepted, and is spent.
    pub handle_pair_conn_with_route-IsSpent :
        (C : Crypto) (hello_max : ℕ) (rotate : Bool) (route : Bytes)
        → IsSpent (handle_pair_conn_with_route F B listen_addr D I C hello_max rotate route d)
    unfolding handle_pair_conn_with_route
    handle_pair_conn_with_route-IsSpent C hello_max rotate route =
        by_route (route =? codes "/pair") (route =? codes "/pair/bootstrap")
          (route =? codes "/pair/complete")
          (pair-IsSpent C hello_max rotate (handle_pair_conn-Changes C F hello_max rotate D I d))
          handle_pair_bootstrap_tcp-IsSpent handle_pair_complete_tcp-IsSpent
      where
        by_route :
            (a b c : Bool) {o p q : Outcome S}
            → IsSpent o
            → IsSpent p
            → IsSpent q
            → IsSpent (if a then o else if b then p else if c then q else o)
        by_route true b c x y z = x
        by_route false true c x y z = y
        by_route false false true x y z = z
        by_route false false false x y z = x
