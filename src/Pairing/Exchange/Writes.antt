-- ===== src/Pairing/Exchange/Writes.antt =====
-- What it takes to change the devices by a connection to `/pair`: stage by stage.
use nova_key_daemon.Common.{
  ℕ, ◌+◌, ◌≡◌, refl, ap, sym, ◌∙◌, Bool, true, false, not, ◌||◌, List, [], ◌∷◌, Option, none, some,
  Bool-cases, inl, inr, arith, if◌then◌else◌, ◌=?◌, ◌==◌, Bytes, codes, length, Result, ok, err,
}
use nova_key_daemon.Common.Dict.{Dict}
use nova_key_daemon.Message.Crypto.{Crypto}
use nova_key_daemon.Message.Freshness.{RateWindow}
use nova_key_daemon.PairToken.{PairToken, TokenError, no_token, check_token, consume_pair_token}
use nova_key_daemon.Router.{read_string}
use nova_key_daemon.Devices.Write.{StoreError, DeviceStore}
use nova_key_daemon.Pairing.{PairFrameError, make_pair_aad, read_pair_binary_frame, trim_nl}
use nova_key_daemon.Pairing.Exchange.{
  PairHello, PairRegister, PairError, PairFormats, PairInput, PairDaemon, Outcome, failed,
  derive_pair_aead_key, fp16_hex, register, opened, derived, decapsulated, framed, accepted, hello,
  line_read, limited, with_key, handle_pair_conn,
}
use nova_key_daemon.Pairing.Exchange.Authorized.{
  IsGreeted, IsAuthorized, Changes, untouched, written_by,
}
use nova_key_daemon.Pairing.Exchange.Stored.{stored-Changes}

check_token-spent :
    (p : PairToken) (o : Option Bytes) (out : Bytes)
    → (check_token p o).0 ≡ ok out
    → (check_token p o).1 ≡ no_token
unfolding check_token
check_token-spent p none out h = cc
check_token-spent p (some got) out h = ground arith

-- A token that is accepted is gone.
pub consume_pair_token-spent :
    (decode : Bytes → Option Bytes) (p : PairToken) (now : ℕ) (sent out : Bytes)
    → (consume_pair_token decode p now sent).0 ≡ ok out
    → (consume_pair_token decode p now sent).1 ≡ no_token
unfolding consume_pair_token
consume_pair_token-spent decode p now sent out h =
    ground (arith, check_token-spent p (decode sent) out)

both_true : (a b : Bool) → (not a || not b) ≡ false → (a ≡ true) × (b ≡ true)
both_true a b h = ground arith

module _ {S : Type 0} (C : Crypto) (F : PairFormats) (hello_max : ℕ) (rotate : Bool)
    (D : DeviceStore S) (I : PairInput) (d : PairDaemon S) where
  abbrev Changed : Outcome S → Type 0
  Changed o = Changes C F hello_max rotate D I d o

  abbrev Authorized : PairRegister → Type 0
  Authorized reg = IsAuthorized C F hello_max rotate D I d reg

  abbrev Greeted : Bytes → Bytes → Type 0
  Greeted rest token = IsGreeted C F hello_max rotate D I d rest token

  abbrev write_of : PairRegister → Result StoreError (Unit {0}) × S
  write_of reg = written_by C F hello_max rotate D I d reg

  -- The stages once the token was accepted, which leave the daemon `e` until a device is written.
  module _ (hs : Dict RateWindow) (t : PairToken) (spent : t ≡ no_token) (w : List Bytes)
      (rest token dk : Bytes) (greeted : Greeted rest token)
      (private : d.keys.server_decap_key ≡ some dk) where
    abbrev e : PairDaemon S
    e = record d { hellos = hs; token = t }

    quiet : (x : PairError) → Changed (failed x w e)
    quiet x = untouched refl refl _ refl

    register-Changes :
        (key ct : Bytes) (o : Option PairRegister)
        → ((reg : PairRegister)
            → o ≡ some reg
            → (reg.op =? codes "register") ≡ true
            → (reg.v == 1) ≡ true
            → Authorized reg)
        → Changed (register C F hello_max rotate D I key ct w e o)
    register-Changes key ct none m = quiet PairError.bad_register_json
    register-Changes key ct (some reg) m =
        elim (Bool-cases (not (reg.op =? codes "register") || not (reg.v == 1))) [
          | inl b ↦ rw b (quiet PairError.unexpected_register)
          | inr b ↦
              let (op, v) = both_true (reg.op =? codes "register") (reg.v == 1) b in
              rw b (
                stored-Changes C F hello_max rotate D I d reg (m reg refl op v) key ct w e
                  (write_of reg) spent refl refl)
        ]

    module _ (ct nonce ciphertext : Bytes)
        (frames : read_pair_binary_frame rest ≡ ok (ct, nonce, ciphertext))
        (size : (length ct == C.ciphertext_size) ≡ true) where
      opened-Changes :
          (shared key : Bytes) (o : Option Bytes)
          → C.decapsulate dk ct ≡ some shared
          → derive_pair_aead_key C shared token ≡ some key
          → C.new_x key ≡ true
          → C.unseal key nonce ciphertext (make_pair_aad ct nonce) ≡ o
          → Changed (opened C F hello_max rotate D I key ct w e o)
      opened-Changes shared key none a b x u = quiet PairError.pair_decrypt_failed
      opened-Changes shared key (some pt) a b x u =
          register-Changes key ct (F.unmarshal_register pt) (λ reg r op v. record {
            rest = rest;
            token = token;
            dk = dk;
            ct = ct;
            nonce = nonce;
            ciphertext = ciphertext;
            shared = shared;
            key = key;
            plaintext = pt;
            greeted = greeted;
            private = private;
            frames = frames;
            ct_size = size;
            decapsulates = a;
            derives = b;
            usable = x;
            opens = u;
            registers = r;
            register_op = op;
            register_v = v;
          })

      derived-Changes :
          (shared : Bytes) (o : Option Bytes)
          → C.decapsulate dk ct ≡ some shared
          → derive_pair_aead_key C shared token ≡ o
          → Changed (derived C F hello_max rotate D I ct nonce ciphertext w e o)
      derived-Changes shared none a b = quiet PairError.pair_derive_failed
      derived-Changes shared (some key) a b = elim (Bool-cases (C.new_x key)) [
        | inr x ↦ rw x (quiet PairError.pair_new_x_failed)
        | inl x ↦ rw x (
            opened-Changes shared key (C.unseal key nonce ciphertext (make_pair_aad ct nonce)) a b x
              refl)
      ]

      decapsulated-Changes :
          (o : Option Bytes)
          → C.decapsulate dk ct ≡ o
          → Changed (decapsulated C F hello_max rotate D I token ct nonce ciphertext w e o)
      decapsulated-Changes none a = quiet PairError.pair_decapsulate_failed
      decapsulated-Changes (some shared) a =
          derived-Changes shared (derive_pair_aead_key C shared token) a refl

    framed-Changes :
        (r : Result PairFrameError (Bytes × Bytes × Bytes))
        → read_pair_binary_frame rest ≡ r
        → Changed (framed C F hello_max rotate D I dk token w e r)
    framed-Changes (err x) p = quiet (PairError.bad_frame x)
    framed-Changes (ok (ct, nonce, ciphertext)) p =
        elim (Bool-cases (length ct == C.ciphertext_size)) [
          | inr x ↦ rw x (quiet PairError.bad_ct_len)
          | inl x ↦ rw x (decapsulated-Changes ct nonce ciphertext p x (C.decapsulate dk ct) refl)
        ]

  module _ (hs : Dict RateWindow) (dk : Bytes) (private : d.keys.server_decap_key ≡ some dk) where
    abbrev f : PairDaemon S
    f = record d { hellos = hs }

    accepted-Changes :
        (rest hello_token : Bytes) (r : Result TokenError Bytes × PairToken)
        → ((token : Bytes)
            → (consume_pair_token F.decode_token d.token I.token_time hello_token).0 ≡ ok token
            → Greeted rest token)
        → consume_pair_token F.decode_token d.token I.token_time hello_token ≡ r
        → Changed (accepted C F hello_max rotate D I dk rest f r)
    accepted-Changes rest hello_token (err x, t) g c = untouched refl refl _ refl
    accepted-Changes rest hello_token (ok token, t) g c =
        let taken = ap (λ r. r.0) c in
        let spent =
          sym (ap (λ r. r.1) c)
          ∙ consume_pair_token-spent F.decode_token d.token I.token_time hello_token token taken in
        by_write I.server_key_writes (
          framed-Changes hs t spent
            (F.server_key_line d.keys.server_encap_key (fp16_hex F.sha256 d.keys.server_encap_key)
                (I.reply_time + 120)
              ∷ [])
            rest token dk (g token taken) private (read_pair_binary_frame rest) refl)
      where
        by_write :
            (b : Bool) {o : Outcome S}
            → Changed o
            → Changed (
                if not b
                then failed PairError.server_key_not_written []
                    (record d { hellos = hs; token = t })
                else o)
        by_write true c = c
        by_write false c = untouched refl refl _ refl

    hello-Changes :
        (line rest : Bytes) (o : Option PairHello)
        → read_string I.sent ≡ some (line, rest)
        → F.unmarshal_hello (trim_nl line) ≡ o
        → Changed (hello C F hello_max rotate D I dk rest f o)
    hello-Changes line rest none reads parses = untouched refl refl _ refl
    hello-Changes line rest (some h) reads parses =
        elim (Bool-cases (not (h.op =? codes "hello") || not (h.v == 1))) [
          | inl b ↦ rw b (untouched refl refl _ refl)
          | inr b ↦ elim (Bool-cases (h.token =? [])) [
            | inl z ↦ rw (b, z) (untouched refl refl _ refl)
            | inr z ↦
                rw (b, z)
                  (let (op, v) = both_true (h.op =? codes "hello") (h.v == 1) b in
                    accepted-Changes rest h.token _
                      (λ token taken. record {
                        line = line;
                        hello_message = h;
                        reads = reads;
                        parses = parses;
                        hello_op = op;
                        hello_v = v;
                        sent_token = z;
                        consumed = taken;
                      })
                      refl)
          ]
        ]

    line_read-Changes :
        (o : Option (Bytes × Bytes))
        → read_string I.sent ≡ o
        → Changed (line_read C F hello_max rotate D I dk f o)
    line_read-Changes none reads = untouched refl refl _ refl
    line_read-Changes (some (line, rest)) reads =
        hello-Changes line rest (F.unmarshal_hello (trim_nl line)) reads refl

  limited-Changes :
      (dk : Bytes) (r : Bool × Dict RateWindow)
      → d.keys.server_decap_key ≡ some dk
      → Changed (limited C F hello_max rotate D I dk d r)
  limited-Changes dk (false, w) p = untouched refl refl _ refl
  limited-Changes dk (true, w) p = line_read-Changes w dk p (read_string I.sent) refl

  with_key-Changes :
      (o : Option Bytes)
      → d.keys.server_decap_key ≡ o
      → Changed (with_key C F hello_max rotate D I d o)
  with_key-Changes none p = untouched refl refl _ refl
  with_key-Changes (some dk) p = elim (Bool-cases (length d.keys.server_encap_key == 0)) [
    | inl z ↦ rw z (untouched refl refl _ refl)
    | inr z ↦ rw z (limited-Changes dk _ p)
  ]

  -- A connection to `/pair` changes neither the stored devices nor those in memory, or it sent an
  -- authorized registration: then it writes that device, and the token is spent.
  pub handle_pair_conn-Changes :
      Changes C F hello_max rotate D I d (handle_pair_conn C F hello_max rotate D I d)
  unfolding handle_pair_conn
  handle_pair_conn-Changes = with_key-Changes d.keys.server_decap_key refl
