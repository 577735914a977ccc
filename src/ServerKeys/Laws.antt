-- ===== src/ServerKeys/Laws.antt =====
-- The keys in use fit each other, and are read back as they were made.
use nova_key_daemon.Common.{
  ◌<◌, ◌≡◌, refl, sym, ◌∙◌, Bool, true, false, not, ◌&&◌, ◌||◌, [], Option, none, some, Bool-cases,
  inl, inr, arith, if◌then◌else◌, ◌=?◌, ◌==◌, ==_iff, Bytes, bytes_dec, length, Result, ok, err,
}
use nova_key_daemon.Common.Dict.{Dict}
use nova_key_daemon.Base64.{IsBase64}
use nova_key_daemon.Files.{
  Os, ReadError, not_exist, unreadable, read_file, write_file, rename_file, tmp_of,
}
use nova_key_daemon.Message.Crypto.{Crypto}
use nova_key_daemon.Message.Outer.{KeyStore}
use nova_key_daemon.ServerKeys.{
  ServerKeys, KeysError, KeyFormats, KeyMachine, pub_checked, key_made, seed_checked,
  materialize_server_keys, renamed_keys, written_keys, put_keys, key_texts,
  generate_and_save_server_keys, parsed_keys, read_keys, keys_path, load_or_create_server_keys,
}

module _ (C : Crypto) (F : KeyFormats) where
  -- What the packages document: an encapsulation key has its size, and the texts are read back.
  pub record IsKeyFormat : Type 0 where
    pub base64 : IsBase64 F.base64
    pub sized :
        (seed dk : Bytes)
        → F.new_key_from_seed seed ≡ some dk
        → length (C.encapsulation_key dk) ≡ F.encapsulation_key_size
    pub seed_pos : 0 < F.seed_size
    pub key_pos : 0 < F.encapsulation_key_size
    pub unmarshal-marshal :
        (old ks : ServerKeys) {b : Bytes}
        → F.marshal_keys ks ≡ some b
        → F.unmarshal_keys old b ≡ (true, ks)

  -- A key as `GenerateKey` makes it: it is made again from its seed.
  pub record IsGenerated (dk : Bytes) : Type 0 where
    pub seed_sized : length (F.seed_of dk) ≡ F.seed_size
    pub from_seed : F.new_key_from_seed (F.seed_of dk) ≡ some dk

  -- The public key in use is that of the private key in use; the devices are as they were.
  pub record IsPaired (before : KeyStore) (after : KeyStore) : Type 0 where
    pub dk : Bytes
    pub private : after.server_decap_key ≡ some dk
    pub public : after.server_encap_key ≡ C.encapsulation_key dk
    pub devices : after.devices ≡ before.devices

  abbrev chosen : Bool → Bool → KeyMachine → KeyMachine → Result KeysError (Unit {0}) × KeyMachine
  chosen x y M M' =
      if not x
      then (err KeysError.pub_wrong_length, M)
      else if y
      then (err KeysError.keys_mismatch, M)
      else (ok tt, M')

  passed :
      (x y : Bool) (M M' : KeyMachine)
      → (chosen x y M M').0 ≡ ok tt
      → (x ≡ true) × (y ≡ false) × ((chosen x y M M').1 ≡ M')
  passed true true M M' h = cc
  passed true false M M' h = (refl, refl, refl)
  passed false y M M' h = cc

  module _ (L : IsKeyFormat) where
    same_key :
        (dk b : Bytes)
        → length (C.encapsulation_key dk) ≡ F.encapsulation_key_size
        → (length b == F.encapsulation_key_size) ≡ true
        → (length (C.encapsulation_key dk) == length b && not (C.encapsulation_key dk =? b)) ≡ false
        → b ≡ C.encapsulation_key dk
    same_key dk b long x y = elim (bytes_dec (C.encapsulation_key dk) b) [
      | yes e ↦ sym e
      | no n ↦
          let both : length (C.encapsulation_key dk) ≡ length b =
            long ∙ sym ((==_iff (length b) F.encapsulation_key_size).0 x) in
          absurd (ground (arith, (==_iff (length (C.encapsulation_key dk)) (length b)).1 both))
    ]

    pub_checked-IsPaired :
        (dk : Bytes) (o : Option Bytes) (before : KeyStore) (M : KeyMachine)
        → M.keys.server_decap_key ≡ some dk
        → M.keys.devices ≡ before.devices
        → length (C.encapsulation_key dk) ≡ F.encapsulation_key_size
        → (pub_checked C F dk o M).0 ≡ ok tt
        → IsPaired before (pub_checked C F dk o M).1.keys
    pub_checked-IsPaired dk none before M p d long h = cc
    pub_checked-IsPaired dk (some b) before M p d long h =
        let r =
          passed (length b == F.encapsulation_key_size)
            (length (C.encapsulation_key dk) == length b && not (C.encapsulation_key dk =? b)) M
            (record M { keys = record M.keys { server_encap_key = b } }) h in
        rw r.2 record { dk = dk; private = p; public = same_key dk b long r.0 r.1; devices = d }

    key_made-IsPaired :
        (seed : Bytes) (o : Option Bytes) (M : KeyMachine)
        → F.new_key_from_seed seed ≡ o
        → (key_made C F o M).0 ≡ ok tt
        → IsPaired M.keys (key_made C F o M).1.keys
    key_made-IsPaired seed none M e h = cc
    key_made-IsPaired seed (some dk) M e h =
        pub_checked-IsPaired dk (F.base64.decode M.srv_keys.kyber_pub) M.keys
          (record M { keys = record M.keys { server_decap_key = some dk } }) refl refl
          (L.sized seed dk e) h

    seed_checked-IsPaired :
        (o : Option Bytes) (M : KeyMachine)
        → (seed_checked C F o M).0 ≡ ok tt
        → IsPaired M.keys (seed_checked C F o M).1.keys
    seed_checked-IsPaired none M h = cc
    seed_checked-IsPaired (some seed) M h = elim (Bool-cases (length seed == F.seed_size)) [
      | inr e ↦ absurd (refused (rw e at h))
      | inl e ↦ rw e (key_made-IsPaired seed (F.new_key_from_seed seed) M refl (rw e at h))
    ]
      where
        refused :
            ◌≡◌ {A = Result KeysError (Unit {0})} (err KeysError.priv_wrong_length) (ok tt) → ⊥
        refused x = cc

    materialize_server_keys-IsPaired :
        (M : KeyMachine)
        → (materialize_server_keys C F M).0 ≡ ok tt
        → IsPaired M.keys (materialize_server_keys C F M).1.keys
    unfolding materialize_server_keys
    materialize_server_keys-IsPaired M h =
        seed_checked-IsPaired (F.base64.decode M.srv_keys.kyber_priv) M h

    module _ (os : Os) where
      renamed_keys-IsPaired :
          (r : Bool × Dict Bytes) (M : KeyMachine)
          → (renamed_keys C F os r M).0 ≡ ok tt
          → IsPaired M.keys (renamed_keys C F os r M).1.keys
      renamed_keys-IsPaired (false, files) M h = cc
      renamed_keys-IsPaired (true, files) M h =
          materialize_server_keys-IsPaired (record M { files = files }) h

      written_keys-IsPaired :
          (path : Bytes) (r : Bool × Dict Bytes) (M : KeyMachine)
          → (written_keys C F os path r M).0 ≡ ok tt
          → IsPaired M.keys (written_keys C F os path r M).1.keys
      written_keys-IsPaired path (false, files) M h = cc
      written_keys-IsPaired path (true, files) M h =
          renamed_keys-IsPaired (rename_file os (tmp_of path) path files) M h

      put_keys-IsPaired :
          (path : Bytes) (o : Option Bytes) (M : KeyMachine)
          → (put_keys C F os path o M).0 ≡ ok tt
          → IsPaired M.keys (put_keys C F os path o M).1.keys
      put_keys-IsPaired path none M h = cc
      put_keys-IsPaired path (some b) M h =
          written_keys-IsPaired path (write_file os (tmp_of path) b M.files) M h

      generate-IsPaired :
          (path : Bytes) (o : Option Bytes) (M : KeyMachine)
          → (generate_and_save_server_keys C F os path o M).0 ≡ ok tt
          → IsPaired M.keys (generate_and_save_server_keys C F os path o M).1.keys
      unfolding generate_and_save_server_keys
      generate-IsPaired path none M h = cc
      generate-IsPaired path (some dk) M h =
          put_keys-IsPaired path (F.marshal_keys (key_texts C F os dk))
            (record M { srv_keys = key_texts C F os dk }) h

      parsed_keys-IsPaired :
          (r : Bool × ServerKeys) (M : KeyMachine)
          → (parsed_keys C F os r M).0 ≡ ok tt
          → IsPaired M.keys (parsed_keys C F os r M).1.keys
      parsed_keys-IsPaired (false, ks) M h = cc
      parsed_keys-IsPaired (true, ks) M h =
          elim (Bool-cases ((ks.kyber_pub =? []) || (ks.kyber_priv =? []))) [
            | inl e ↦ absurd (missing (rw e at h))
            | inr e ↦
                rw e (materialize_server_keys-IsPaired (record M { srv_keys = ks }) (rw e at h))
          ]
        where
          missing : ◌≡◌ {A = Result KeysError (Unit {0})} (err KeysError.keys_missing) (ok tt) → ⊥
          missing x = cc

      read_keys-IsPaired :
          (path : Bytes) (drawn : Option Bytes) (r : Result ReadError Bytes) (M : KeyMachine)
          → (read_keys C F os path drawn r M).0 ≡ ok tt
          → IsPaired M.keys (read_keys C F os path drawn r M).1.keys
      read_keys-IsPaired path drawn (err not_exist) M h = generate-IsPaired path drawn M h
      read_keys-IsPaired path drawn (err unreadable) M h = cc
      read_keys-IsPaired path drawn (ok b) M h =
          parsed_keys-IsPaired (F.unmarshal_keys M.srv_keys b) M h

      -- Wherever loading or making the keys succeeds, the public key in use is the one of the private
      -- key in use, and the devices are untouched.
      pub load_or_create_server_keys-IsPaired :
          (rotate : Bool) (path : Bytes) (drawn : Option Bytes) (M : KeyMachine)
          → (load_or_create_server_keys C F os rotate path drawn M).0 ≡ ok tt
          → IsPaired M.keys (load_or_create_server_keys C F os rotate path drawn M).1.keys
      unfolding load_or_create_server_keys
      load_or_create_server_keys-IsPaired true path drawn M h =
          generate-IsPaired (keys_path C F os path) drawn M h
      load_or_create_server_keys-IsPaired false path drawn M h =
          read_keys-IsPaired (keys_path C F os path) drawn
            (read_file os M.files (keys_path C F os path)) M h
