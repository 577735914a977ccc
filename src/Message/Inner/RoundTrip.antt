-- ===== src/Message/Inner/RoundTrip.antt =====
-- What `decodeMessageFrame` accepts is what `encodeMessageFrame` writes.
use nova_key_daemon.Common.{
  ℕ, ◌+◌, ◌-◌, ◌%◌, ◌^◌, ◌≤◌, ◌≡◌, ◌≢◌, refl, ap, ◌∙◌, sym, true, [], ◌∷◌, ◌++◌, take_all,
  drop-append_past, arith, Bytes, length, length-append, take, drop, take-append, drop-append,
  length-take, length-drop, take-append-drop, ok, ◌>>=◌, All,
}
use nova_key_daemon.Message.Wire.{IsByte, be, put_u16, put_u32}
use nova_key_daemon.Message.Inner.{is_msg_type, encode_message_frame, decode_message_frame}

-- The frame that stands for a message.
abbrev frame : Bytes → ℕ → Bytes → Bytes
frame dev t pl =
    1 ∷ t ∷ put_u16 (length dev % 2 ^ 16) ++ (put_u32 (length pl % 2 ^ 32) ++ (dev ++ pl))

encode_lem :
    (dev : Bytes) (t : ℕ) (pl : Bytes)
    → dev ≢ []
    → is_msg_type t ≡ true
    → length dev ≤ 0xFFFF
    → length pl ≤ 0xFFFF_FFFF
    → encode_message_frame dev t pl ≡ ok (frame dev t pl)
unfolding encode_message_frame
encode_lem dev t pl hd ht hl hp = ground arith

pos_length : (xs : Bytes) → xs ≢ [] → 1 ≤ length xs
pos_length [] h = absurd (h refl)
pos_length (x ∷ xs) h = omega arith

-- The slices behind the eight bytes of the header.
slice_device : (dev pl : Bytes) (n : ℕ) → n ≡ length dev → take (8 + n - 8) (dev ++ pl) ≡ dev
slice_device dev pl n h = take-append (8 + n - 8) dev pl (omega arith)

slice_payload :
    (head dev pl : Bytes) (n m : ℕ)
    → length head ≡ 8
    → n ≡ length dev
    → m ≡ length pl
    → take (8 + n + m - (8 + n)) (drop (8 + n) (head ++ (dev ++ pl))) ≡ pl
slice_payload head dev pl n m hh hn hm =
    rw (drop-append_past (8 + n) n head (dev ++ pl) (omega arith), drop-append n dev pl (sym hn))
      (take_all (8 + n + m - (8 + n)) pl (omega arith))

decode_header :
    (t d1 d2 p1 p2 p3 p4 : ℕ) (dev pl : Bytes)
    → be (d1 ∷ d2 ∷ []) ≡ length dev
    → be (p1 ∷ p2 ∷ p3 ∷ p4 ∷ []) ≡ length pl
    → 1 ≤ length dev
    → is_msg_type t ≡ true
    → decode_message_frame (1 ∷ t ∷ d1 ∷ d2 ∷ p1 ∷ p2 ∷ p3 ∷ p4 ∷ (dev ++ pl)) ≡ ok (dev, t, pl)
unfolding decode_message_frame
decode_header t d1 d2 p1 p2 p3 p4 dev pl hd hp pos ht = ground (
  arith,
  length-append dev pl,
  slice_device dev pl (be (d1 ∷ d2 ∷ [])) hd,
  slice_payload (1 ∷ t ∷ d1 ∷ d2 ∷ p1 ∷ p2 ∷ p3 ∷ p4 ∷ []) dev pl (be (d1 ∷ d2 ∷ []))
      (be (p1 ∷ p2 ∷ p3 ∷ p4 ∷ [])) refl hd hp,
)

-- A message with a device name of 1 to 65535 bytes, one of the four types and a payload below 4 GiB
-- is encoded, and decoding the frame gives its three parts back.
pub decode-encode :
    (dev : Bytes) (t : ℕ) (pl : Bytes)
    → dev ≢ []
    → is_msg_type t ≡ true
    → length dev ≤ 0xFFFF
    → length pl ≤ 0xFFFF_FFFF
    → (encode_message_frame dev t pl >>= decode_message_frame) ≡ ok (dev, t, pl)
decode-encode dev t pl hd ht hl hp =
    rw (encode_lem dev t pl hd ht hl hp)
      (decode_header t _ _ _ _ _ _ dev pl (omega arith) (omega arith) (pos_length dev hd) ht)

-- The two slices behind the header make up what stands there.
slices_join :
    (n m : ℕ) (rest : Bytes)
    → length rest ≡ n + m
    → take (8 + n - 8) rest ++ take (8 + n + m - (8 + n)) (drop n rest) ≡ rest
slices_join n m rest h =
    rw (take_all (8 + n + m - (8 + n)) (drop n rest) (omega (arith, length-drop n rest)))
      (ap (λ k. take k rest ++ drop n rest) (omega arith) ∙ take-append-drop n rest)

decode_inv :
    (v t' d1 d2 p1 p2 p3 p4 : ℕ) (rest : Bytes) {dev : Bytes} {t : ℕ} {pl : Bytes}
    → decode_message_frame (v ∷ t' ∷ d1 ∷ d2 ∷ p1 ∷ p2 ∷ p3 ∷ p4 ∷ rest) ≡ ok (dev, t, pl)
    → let n = be (d1 ∷ d2 ∷ []) in
      let m = be (p1 ∷ p2 ∷ p3 ∷ p4 ∷ []) in
      (v ≡ 1)
      × (t ≡ t')
      × (is_msg_type t' ≡ true)
      × (1 ≤ n)
      × (length rest ≡ n + m)
      × (dev ≡ take (8 + n - 8) rest)
      × (pl ≡ take (8 + n + m - (8 + n)) (drop n rest))
unfolding decode_message_frame
decode_inv v t' d1 d2 p1 p2 p3 p4 rest h = ground (
  arith,
  drop-append_past (8 + be (d1 ∷ d2 ∷ [])) (be (d1 ∷ d2 ∷ []))
      (v ∷ t' ∷ d1 ∷ d2 ∷ p1 ∷ p2 ∷ p3 ∷ p4 ∷ []) rest (omega arith),
)

ne_nil : (xs : Bytes) → 1 ≤ length xs → xs ≢ []
ne_nil [] h = absurd (omega arith)
ne_nil (x ∷ xs) h = λ e. cc

-- The frame of a message is spelled by its header's bytes and the rest.
frame_bytes :
    (d1 d2 p1 p2 p3 p4 t : ℕ) (dev pl rest : Bytes)
    → All IsByte (d1 ∷ d2 ∷ p1 ∷ p2 ∷ p3 ∷ p4 ∷ [])
    → length dev ≡ be (d1 ∷ d2 ∷ [])
    → length pl ≡ be (p1 ∷ p2 ∷ p3 ∷ p4 ∷ [])
    → dev ++ pl ≡ rest
    → frame dev t pl ≡ 1 ∷ t ∷ d1 ∷ d2 ∷ p1 ∷ p2 ∷ p3 ∷ p4 ∷ rest
frame_bytes d1 d2 p1 p2 p3 p4 t dev pl rest bytes hd hp e = ground arith

encode_accepted :
    (d1 d2 p1 p2 p3 p4 t : ℕ) (dev pl rest : Bytes)
    → All IsByte (d1 ∷ d2 ∷ p1 ∷ p2 ∷ p3 ∷ p4 ∷ [])
    → is_msg_type t ≡ true
    → 1 ≤ length dev
    → length dev ≡ be (d1 ∷ d2 ∷ [])
    → length pl ≡ be (p1 ∷ p2 ∷ p3 ∷ p4 ∷ [])
    → dev ++ pl ≡ rest
    → encode_message_frame dev t pl ≡ ok (1 ∷ t ∷ d1 ∷ d2 ∷ p1 ∷ p2 ∷ p3 ∷ p4 ∷ rest)
encode_accepted d1 d2 p1 p2 p3 p4 t dev pl rest bytes ht pos hd hp e =
    encode_lem dev t pl (ne_nil dev pos) ht (omega arith) (omega arith)
    ∙ ap ok (frame_bytes d1 d2 p1 p2 p3 p4 t dev pl rest bytes hd hp e)

-- What is accepted is the encoding of what is returned: no two frames decode alike, and nothing is
-- accepted beside the frames that `encodeMessageFrame` writes.
pub encode-decode :
    (b : Bytes) {dev : Bytes} {t : ℕ} {pl : Bytes}
    → All IsByte b
    → decode_message_frame b ≡ ok (dev, t, pl)
    → encode_message_frame dev t pl ≡ ok b
unfolding decode_message_frame
encode-decode (v ∷ t' ∷ d1 ∷ d2 ∷ p1 ∷ p2 ∷ p3 ∷ p4 ∷ rest) {dev} {t} {pl} bytes h =
    let n = be (d1 ∷ d2 ∷ []) in
    let m = be (p1 ∷ p2 ∷ p3 ∷ p4 ∷ []) in
    let (ev, et, ht, pos, total, ed, ep) = decode_inv v t' d1 d2 p1 p2 p3 p4 rest h in
    let hd : length dev ≡ n = rw ed (length-take (8 + n - 8) rest (omega arith) ∙ omega arith) in
    let hp : length pl ≡ m =
      rw (ep, take_all (8 + n + m - (8 + n)) (drop n rest) (omega (arith, length-drop n rest)))
        (omega (arith, length-drop n rest)) in
    rw (ev, et)
      (encode_accepted d1 d2 p1 p2 p3 p4 t' dev pl rest (omega arith) ht (omega arith) hd hp
        (rw (ed, ep) (slices_join n m rest total)))
encode-decode _ bytes h = cc

-- What a successful encoding shows of the message.
pub encode_inv :
    (dev : Bytes) (t : ℕ) (pl : Bytes) {b : Bytes}
    → encode_message_frame dev t pl ≡ ok b
    → (dev ≢ [])
      × (is_msg_type t ≡ true)
      × (length dev ≤ 0xFFFF)
      × (length pl ≤ 0xFFFF_FFFF)
      × (b ≡ frame dev t pl)
unfolding encode_message_frame
encode_inv dev t pl h = ground arith

pub decode_encoded :
    (dev : Bytes) (t : ℕ) (pl : Bytes) {b : Bytes}
    → encode_message_frame dev t pl ≡ ok b
    → decode_message_frame b ≡ ok (dev, t, pl)
decode_encoded dev t pl h =
    let (hd, ht, hl, hp, e) = encode_inv dev t pl h in
    rw e (decode_header t _ _ _ _ _ _ dev pl (omega arith) (omega arith) (pos_length dev hd) ht)

-- An encoded frame begins with its version.
pub encoded_starts :
    (dev : Bytes) (t : ℕ) (pl : Bytes) {b : Bytes}
    → encode_message_frame dev t pl ≡ ok b
    → (rest : Bytes) × (b ≡ 1 ∷ rest)
encoded_starts dev t pl h =
    let (_, _, _, _, e) = encode_inv dev t pl h in
    (t ∷ put_u16 (length dev % 2 ^ 16) ++ (put_u32 (length pl % 2 ^ 32) ++ (dev ++ pl)), e)
