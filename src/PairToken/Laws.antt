-- ===== src/PairToken/Laws.antt =====
-- Who gets a token accepted, and how often.
use nova_key_daemon.Common.{
  ℕ, ◌≡◌, ◌≢◌, ◌≤◌, ◌↔◌, refl, ap, Bool, true, ◌&&◌, [], ◌∷◌, Option, some, arith, ◌==◌, ==_iff,
  Bytes, length, ok, err, Option-cases, Bool-cases, inl, inr,
}
use nova_key_daemon.PairToken.{
  PairToken, not_active, all_equal, const_time_eq, check_token, consume_pair_token,
}

all_equal_lem :
    (v : Bool) (a b : Bytes)
    → length a ≡ length b
    → (all_equal v a b ≡ true) ↔ ((v ≡ true) × (a ≡ b))
unfolding all_equal
all_equal_lem v [] [] h = (λ e. (e, refl), λ e. e.0)
all_equal_lem v [] (y ∷ b) h = absurd (omega arith)
all_equal_lem v (x ∷ a) [] h = absurd (omega arith)
all_equal_lem v (x ∷ a) (y ∷ b) h =
    let ih = all_equal_lem (v && x == y) a b (omega arith) in
    (λ e. ground (arith, ih), λ e. ground (arith, ih))

-- The comparison in constant time is equality.
pub const_time_eq_iff : (a b : Bytes) → (const_time_eq a b ≡ true) ↔ (a ≡ b)
unfolding const_time_eq
const_time_eq_iff a b = (there, back)
  where
    there : const_time_eq a b ≡ true → a ≡ b
    there h = elim (Bool-cases (length a == length b)) [
      | inl e ↦ ((all_equal_lem true a b ((==_iff (length a) (length b)).0 e)).0 (rw e at h)).1
      | inr e ↦ absurd (ground arith)
    ]

    back : a ≡ b → const_time_eq a b ≡ true
    back h =
        rw ((==_iff (length a) (length b)).1 (ap length h))
          ((all_equal_lem true a b (ap length h)).1 (refl, h))

-- A token is accepted only while pairing is active and not expired, only if what was sent decodes
-- to the token itself; and the answer is the token.
pub consume_pair_token-ok :
    (decode : Bytes → Option Bytes) (p : PairToken) (now : ℕ) (sent out : Bytes)
    → (consume_pair_token decode p now sent).0 ≡ ok out
    → (p.active ≡ true)
      × (p.token ≢ [])
      × (now ≤ p.expires)
      × (decode sent ≡ some p.token)
      × (out ≡ p.token)
unfolding consume_pair_token check_token
consume_pair_token-ok decode p now sent out h = elim (Option-cases (decode sent)) [
  | inl e ↦ absurd (ground arith)
  | inr (got, e) ↦ ground (arith, const_time_eq_iff got p.token)
]

-- One time: once a token was accepted, whatever is sent, at any time, is answered by "not active",
-- until a new token is made.
pub consume_pair_token_once :
    (decode : Bytes → Option Bytes) (p : PairToken) (now later : ℕ) (sent again out : Bytes)
    → (consume_pair_token decode p now sent).0 ≡ ok out
    → (consume_pair_token decode (consume_pair_token decode p now sent).1 later again).0
      ≡ err not_active
unfolding consume_pair_token check_token
consume_pair_token_once decode p now later sent again out h = elim (Option-cases (decode sent)) [
  | inl e ↦ absurd (ground arith)
  | inr (got, e) ↦ ground arith
]
