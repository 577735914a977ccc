-- ===== src/ServerKeys/Reload.antt =====
-- The keys that were made and saved are the keys that a later start loads.
use nova_key_daemon.Common.{
  ℕ, ◌<◌, ◌≡◌, ◌≢◌, refl, ap, ◌∙◌, Bool, true, false, ◌||◌, [], Option, none, some, arith, ◌=?◌,
  =?_refl, ==_iff, Bytes, length, ok,
}
use nova_key_daemon.Common.Dict.{Dict, lookup}
use nova_key_daemon.Files.{Os, read_file, write_file, rename_file, tmp_of}
use nova_key_daemon.Files.Laws.{lookup-write_file_self, lookup-rename_file}
use nova_key_daemon.Message.Crypto.{Crypto}
use nova_key_daemon.Message.Outer.{KeyStore}
use nova_key_daemon.ServerKeys.{
  ServerKeys, KeyFormats, KeyMachine, materialize_server_keys, renamed_keys, written_keys, put_keys,
  key_texts, generate_and_save_server_keys, parsed_keys, keys_path, load_or_create_server_keys,
}
use nova_key_daemon.ServerKeys.Laws.{IsKeyFormat, IsGenerated}

ne_nil_of_length : (n : ℕ) (s : Bytes) → length s ≡ n → 0 < n → s ≢ []
ne_nil_of_length n s h p e = absurd (omega (arith, ap length e, h, p))

module _ (C : Crypto) (F : KeyFormats) (L : IsKeyFormat C F) (os : Os) (dk : Bytes)
    (G : IsGenerated C F dk) where
  abbrev pub with_key : KeyStore → KeyStore
  with_key ks = record ks { server_decap_key = some dk; server_encap_key = C.encapsulation_key dk }

  abbrev texts : ServerKeys
  texts = key_texts C F os dk

  materialize-texts :
      (M : KeyMachine)
      → materialize_server_keys C F (record M { srv_keys = texts })
        ≡ (ok tt, record M { srv_keys = texts; keys = with_key M.keys })
  unfolding materialize_server_keys
  materialize-texts M =
      rw
        (
          L.base64.decode-encode (F.seed_of dk),
          (==_iff (length (F.seed_of dk)) F.seed_size).1 (G.seed_sized),
          G.from_seed,
          L.base64.decode-encode (C.encapsulation_key dk),
          (==_iff (length (C.encapsulation_key dk)) F.encapsulation_key_size).1
              (L.sized (F.seed_of dk) dk G.from_seed),
          (==_iff (length (C.encapsulation_key dk)) (length (C.encapsulation_key dk))).1 refl,
          =?_refl (C.encapsulation_key dk),
        )
        refl

  texts_filled : ((texts.kyber_pub =? []) || (texts.kyber_priv =? [])) ≡ false
  texts_filled =
      let a = L.base64.encode-ne_nil (C.encapsulation_key dk) (
        ne_nil_of_length F.encapsulation_key_size (C.encapsulation_key dk)
          (L.sized (F.seed_of dk) dk G.from_seed) L.key_pos) in
      let b =
        L.base64.encode-ne_nil (F.seed_of dk)
          (ne_nil_of_length F.seed_size (F.seed_of dk) (G.seed_sized) L.seed_pos) in
      filled texts.kyber_pub texts.kyber_priv a b
    where
      filled : (x y : Bytes) → x ≢ [] → y ≢ [] → ((x =? []) || (y =? [])) ≡ false
      filled x y hx hy = ground arith

  parsed-texts :
      (M : KeyMachine)
      → parsed_keys C F os (true, texts) M
        ≡ (ok tt, record M { srv_keys = texts; keys = with_key M.keys })
  parsed-texts M = rw texts_filled (materialize-texts M)

  -- The state in which a key that was made is saved and in use.
  abbrev pub Saved : Bytes → Bytes → KeyStore → KeyMachine → Type 0
  Saved b path ks M = (lookup path M.files ≡ some b) × (M.keys ≡ with_key ks)

  renamed_keys-Saved :
      (b path : Bytes) (r : Bool × Dict Bytes) (M : KeyMachine)
      → (r.0 ≡ true → lookup path r.1 ≡ some b)
      → (renamed_keys C F os r (record M { srv_keys = texts })).0 ≡ ok tt
      → Saved b path M.keys (renamed_keys C F os r (record M { srv_keys = texts })).1
  renamed_keys-Saved b path (false, files) M there h = cc
  renamed_keys-Saved b path (true, files) M there h =
      rw (materialize-texts (record M { files = files })) (there refl, refl)

  written_keys-Saved :
      (b path : Bytes) (r : Bool × Dict Bytes) (M : KeyMachine)
      → (r.0 ≡ true → lookup (tmp_of path) r.1 ≡ some b)
      → (written_keys C F os path r (record M { srv_keys = texts })).0 ≡ ok tt
      → Saved b path M.keys (written_keys C F os path r (record M { srv_keys = texts })).1
  written_keys-Saved b path (false, files) M there h = cc
  written_keys-Saved b path (true, files) M there h =
      renamed_keys-Saved b path (rename_file os (tmp_of path) path files) M
        (λ moved.
          lookup-rename_file os path (tmp_of path) path files moved
          ∙ rw (=?_refl path) (there refl))
        h

  put_keys-Saved :
      (path : Bytes) (o : Option Bytes) (M : KeyMachine)
      → (put_keys C F os path o (record M { srv_keys = texts })).0 ≡ ok tt
      → (b : Bytes) × (o ≡ some b)
        × Saved b path M.keys (put_keys C F os path o (record M { srv_keys = texts })).1
  put_keys-Saved path none M h = cc
  put_keys-Saved path (some b) M h = (
    b,
    refl,
    written_keys-Saved b path (write_file os (tmp_of path) b M.files) M
        (lookup-write_file_self os (tmp_of path) b M.files) h,
  )

  -- A later start, with the file readable and no rotation, from whatever state but these files.
  reload-texts :
      (later : Os) (path b : Bytes) (drawn : Option Bytes) (M : KeyMachine)
      → later.readable (keys_path C F later path) ≡ true
      → lookup (keys_path C F later path) M.files ≡ some b
      → F.marshal_keys texts ≡ some b
      → load_or_create_server_keys C F later false path drawn M
        ≡ (ok tt, record M { srv_keys = texts; keys = with_key M.keys })
  unfolding load_or_create_server_keys read_file
  reload-texts later path b drawn M readable there written =
      rw (there, readable, L.unmarshal-marshal M.srv_keys texts written) (parsed-texts M)

  -- Keys that were made and saved are in use, and are loaded again by every later start that finds the
  -- file, can read it and does not rotate the keys.
  pub generate_and_save_server_keys-load :
      (later : Os) (path : Bytes) (drawn : Option Bytes) (M N : KeyMachine)
      → (generate_and_save_server_keys C F os (keys_path C F os path) (some dk) M).0 ≡ ok tt
      → N.files ≡ (generate_and_save_server_keys C F os (keys_path C F os path) (some dk) M).1.files
      → later.readable (keys_path C F later path) ≡ true
      → ((generate_and_save_server_keys C F os (keys_path C F os path) (some dk) M).1.keys
          ≡ with_key M.keys)
        × ((load_or_create_server_keys C F later false path drawn N).0 ≡ ok tt)
        × ((load_or_create_server_keys C F later false path drawn N).1.keys ≡ with_key N.keys)
  unfolding generate_and_save_server_keys
  generate_and_save_server_keys-load later path drawn M N h same readable =
      let put = put_keys-Saved (keys_path C F os path) (F.marshal_keys texts) M h in
      let again =
        reload-texts later path put.0 drawn N readable
          (ap (lookup (keys_path C F os path)) same ∙ put.2.0) put.1 in
      (put.2.1, ap (λ r. r.0) again, ap (λ r. r.1.keys) again)
