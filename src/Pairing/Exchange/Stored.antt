-- ===== src/Pairing/Exchange/Stored.antt =====
-- The last stages of a connection to `/pair`: the write of the device, and the acknowledgement.
use nova_key_daemon.Common.{
  ℕ, ◌≡◌, ◌++◌, refl, ap, sym, ◌∙◌, Bool, true, false, not, List, [], ◌∷◌, Option, inl, inr,
  if◌then◌else◌, ◌==◌, Bytes, length, Result, ok, err,
}
use nova_key_daemon.Common.Dict.{Dict}
use nova_key_daemon.Message.Crypto.{Crypto}
use nova_key_daemon.Message.Outer.{DeviceState}
use nova_key_daemon.PairToken.{no_token}
use nova_key_daemon.Devices.Write.{StoreError, DeviceStore, reload_devices_from_disk}
use nova_key_daemon.Devices.Write.Laws.{reload_devices_from_disk-store}
use nova_key_daemon.Pairing.{make_pair_aad}
use nova_key_daemon.Pairing.Exchange.{
  PairRegister, PairError, PairFormats, PairInput, PairDaemon, Outcome, failed, chosen_id,
  acknowledged, reloaded, stored,
}
use nova_key_daemon.Pairing.Exchange.Authorized.{IsAuthorized, Changes, registered, written_by}

module _ {S : Type 0} (C : Crypto) (F : PairFormats) (hello_max : ℕ) (rotate : Bool)
    (D : DeviceStore S) (I : PairInput) (d : PairDaemon S) where
  abbrev Changed : Outcome S → Type 0
  Changed o = Changes C F hello_max rotate D I d o

  abbrev Authorized : PairRegister → Type 0
  Authorized reg = IsAuthorized C F hello_max rotate D I d reg

  abbrev write_of : PairRegister → Result StoreError (Unit {0}) × S
  write_of reg = written_by C F hello_max rotate D I d reg

  acknowledged-daemon :
      (key ct id : Bytes) (w : List Bytes) (e : PairDaemon S)
      → (acknowledged C F hello_max rotate D I key ct id w e).daemon ≡ e
  acknowledged-daemon key ct id w e = flags (not (length I.ack_nonce == 24)) (not I.ack_writes)
    where
      flags :
          (a b : Bool)
          → (if a
              then failed PairError.bad_ack_nonce w e
              else if b
              then failed PairError.ack_not_written w e
              else record {
                result = ok tt;
                written =
                    w
                    ++ (I.ack_nonce
                        ∷ C.seal key I.ack_nonce (F.ack id) (make_pair_aad ct I.ack_nonce)
                        ∷ []);
                daemon = e;
              }).daemon
            ≡ e
      flags true b = refl
      flags false true = refl
      flags false false = refl

  module _ (reg : PairRegister) (m : Authorized reg) (key ct : Bytes) (w : List Bytes) where
    reloaded-Changes :
        (e : PairDaemon S) (r : Result StoreError (Unit {0}) × Option (Dict DeviceState) × S)
        → e.token ≡ no_token
        → e.keys ≡ d.keys
        → (write_of reg).0 ≡ ok tt
        → r ≡ reload_devices_from_disk D d.keys.devices (write_of reg).1
        → Changed (reloaded C F hello_max rotate D I key ct (chosen_id I reg) w e r)
    reloaded-Changes e (err x, t, s) spent kept done same =
        registered reg m spent
          (inr
            (ap (λ x. x.2) same ∙ reload_devices_from_disk-store D d.keys.devices (write_of reg).1))
          (λ h. cc)
    reloaded-Changes e (ok u, t, s) spent kept done same =
        let left =
          acknowledged-daemon key ct (chosen_id I reg) w
            (record e { store = s; keys = record e.keys { devices = t } }) in
        registered reg m (ap (λ x. x.token) left ∙ spent)
          (inr (
            ap (λ x. x.store) left
            ∙ ap (λ x. x.2) same
            ∙ reload_devices_from_disk-store D d.keys.devices (write_of reg).1))
          (λ h. record {
            stored_ok = done;
            in_memory = ap (λ x. x.keys.devices) left ∙ ap (λ x. x.1) same;
            same_key = ap (λ x. x.keys.server_decap_key) left ∙ ap (λ k. k.server_decap_key) kept;
          })

    pub stored-Changes :
        (e : PairDaemon S) (r : Result StoreError (Unit {0}) × S)
        → e.token ≡ no_token
        → e.keys ≡ d.keys
        → r ≡ write_of reg
        → Changed (stored C F hello_max rotate D I key ct (chosen_id I reg) w e r)
    stored-Changes e (err x, s) spent kept same =
        registered reg m spent (inl (ap (λ x. x.1) same)) (λ h. cc)
    stored-Changes e (ok u, s) spent kept same =
        reloaded-Changes (record e { store = s }) (reload_devices_from_disk D e.keys.devices s)
          spent kept (sym (ap (λ x. x.0) same))
          (ap (λ k. reload_devices_from_disk D k.devices s) kept
            ∙ ap (λ x. reload_devices_from_disk D d.keys.devices x.1) same)
