-- ===== src/Handshake/Binding.antt =====
-- A signature is for one session and one peer request.
use dvpnd.Prelude.{
  ℕ, ◌==◌, ◌<◌, ◌^◌, ◌*◌, ◌+◌, ◌≡◌, refl, sym, ap, ◌∙◌, true, false, Option, none, some, ◌∷◌, ◌++◌,
  length, Bytes, arith, Bool-cases, ◌⊎◌, inl, inr, ==_iff,
}
use dvpnd.Prelude.Slices.{drop, has_prefix}
use dvpnd.Prelude.Base64.{decode}
use dvpnd.Prelude.Results.{Err, Result, ok, err, Result-cases}
use dvpnd.Handshake.{
  Body, Front, pub_key_prefix, big_endian64, check_signature, decoded_signature, decoded_data,
  decoded_key, verify_handshake,
}

-- The body is signed, with the key whose address is the account, over its id and its request.
pub record Signed (F : Front) (b : Body) (account raw : Bytes) : Type 0 where
  pub key : Bytes
  pub signature : Bytes
  pub key_size : length key ≡ 33
  pub named : decode (drop 10 b.pub_key) ≡ some key
  pub request : decode b.peer_request ≡ some raw
  pub carried : decode b.signature ≡ some signature
  pub verified : F.verify_signature key (big_endian64 b.id ++ raw) signature ≡ true
  pub account_of : account ≡ F.address key
  pub not_zero : (b.id == 0) ≡ false

both :
    {x y a b : Bytes} → ◌≡◌ {A = Result (Bytes × Bytes)} (ok (x, y)) (ok (a, b)) → (x ≡ a) × (y ≡ b)
both h = (cc, cc)

module _ (F : Front) (b : Body) (account raw : Bytes) where
  signature-Signed :
      (key data' signature : Bytes)
      → length key ≡ 33
      → decode (drop 10 b.pub_key) ≡ some key
      → decode b.peer_request ≡ some data'
      → decode b.signature ≡ some signature
      → check_signature F b key data' signature ≡ ok (account, raw)
      → Signed F b account raw
  unfolding check_signature
  signature-Signed key data' signature size named request carried h =
      elim (Bool-cases (b.id == 0)) [
        | inl y ↦ absurd (let k = rw y at h in cc)
        | inr n ↦
            elim (Bool-cases (F.verify_signature key (big_endian64 b.id ++ data') signature)) [
              | inr m ↦ absurd (let k = rw n at h in let k' = rw m at k in cc)
              | inl v ↦
                  let k : ◌≡◌ {A = Result (Bytes × Bytes)} (ok (F.address key, data'))
                      (ok (account, raw)) =
                    (let k = rw n at h in rw v at k) in
                  record {
                    key = key;
                    signature = signature;
                    key_size = size;
                    named = named;
                    request = request ∙ ap some (both k).1;
                    carried = carried;
                    verified =
                        ap (λ d. F.verify_signature key (big_endian64 b.id ++ d) signature)
                          (sym (both k).1)
                        ∙ v;
                    account_of = sym (both k).0;
                    not_zero = n;
                  }
            ]
      ]

  decoded_signature-Signed :
      (key data' : Bytes) (o : Option Bytes)
      → length key ≡ 33
      → decode (drop 10 b.pub_key) ≡ some key
      → decode b.peer_request ≡ some data'
      → decode b.signature ≡ o
      → decoded_signature F b key data' o ≡ ok (account, raw)
      → Signed F b account raw
  unfolding decoded_signature
  decoded_signature-Signed key data' none size named request carried h = cc
  decoded_signature-Signed key data' (some signature) size named request carried h =
      signature-Signed key data' signature size named request carried h

  decoded_data-Signed :
      (key : Bytes) (o : Option Bytes)
      → length key ≡ 33
      → decode (drop 10 b.pub_key) ≡ some key
      → decode b.peer_request ≡ o
      → decoded_data F b key o ≡ ok (account, raw)
      → Signed F b account raw
  unfolding decoded_data
  decoded_data-Signed key none size named request h = cc
  decoded_data-Signed key (some data') size named request h =
      decoded_signature-Signed key data' (decode b.signature) size named request refl h

  decoded_key-Signed :
      (o : Option Bytes)
      → decode (drop 10 b.pub_key) ≡ o
      → decoded_key F b o ≡ ok (account, raw)
      → Signed F b account raw
  unfolding decoded_key
  decoded_key-Signed none named h = cc
  decoded_key-Signed (some key) named h = elim (Bool-cases (length key == 33)) [
    | inl y ↦
        decoded_data-Signed key (decode b.peer_request) ((==_iff (length key) 33).0 y) named refl
          (rw y at h)
    | inr n ↦ absurd (let k = rw n at h in cc)
  ]

  pub verify_handshake-Signed : verify_handshake F b ≡ ok (account, raw) → Signed F b account raw
  unfolding verify_handshake
  verify_handshake-Signed h = elim (Bool-cases (has_prefix b.pub_key pub_key_prefix)) [
    | inl y ↦ decoded_key-Signed (decode (drop 10 b.pub_key)) refl (rw y at h)
    | inr n ↦ absurd (let k = rw n at h in cc)
  ]

-- The number that eight bytes stand for.
value64 : Bytes → ℕ
value64 (a ∷ b ∷ c ∷ d ∷ e ∷ f ∷ g ∷ h ∷ rest) =
    ((((((a * 256 + b) * 256 + c) * 256 + d) * 256 + e) * 256 + f) * 256 + g) * 256 + h
value64 _ = 0

value64-big_endian64 : (n : ℕ) (s : Bytes) → n < 2 ^ 64 → value64 (big_endian64 n ++ s) ≡ n
unfolding value64 big_endian64
value64-big_endian64 n s h = omega arith

behind : (n : ℕ) (s : Bytes) → drop 8 (big_endian64 n ++ s) ≡ s
unfolding big_endian64
behind n s = refl

accepted-binds :
    (F : Front) (b : Body) (account raw key : Bytes) (id : ℕ) (request : Bytes)
    → b.id < 2 ^ 64
    → id < 2 ^ 64
    → decode (drop 10 b.pub_key) ≡ some key
    → ((m s : Bytes) → F.verify_signature key m s ≡ true → m ≡ big_endian64 id ++ request)
    → verify_handshake F b ≡ ok (account, raw)
    → (b.id ≡ id) × (raw ≡ request) × (account ≡ F.address key)
accepted-binds F b account raw key id request hb hi named only h =
    let g = verify_handshake-Signed F b account raw h in
    let same : g.key ≡ key = (let k = sym g.named ∙ named in cc) in
    let message = only (big_endian64 b.id ++ raw) g.signature (rw (← same) g.verified) in
    (
      sym (value64-big_endian64 b.id raw hb)
          ∙ ap value64 message
          ∙ value64-big_endian64 id request hi,
      sym (behind b.id raw) ∙ ap (drop 8) message ∙ behind id request,
      g.account_of ∙ ap F.address same,
    )

-- When the holder of a key has signed, of all messages, only the one for a session id and a
-- request, verifyHandshake refuses a body under that key or the body is for that id and that
-- request, and the account is the key's: the signature cannot be used for another session or
-- another peer. Both ids are 64-bit words.
pub verify_handshake-Bound :
    (F : Front) (b : Body) (key : Bytes) (id : ℕ) (request : Bytes)
    → b.id < 2 ^ 64
    → id < 2 ^ 64
    → decode (drop 10 b.pub_key) ≡ some key
    → ((m s : Bytes) → F.verify_signature key m s ≡ true → m ≡ big_endian64 id ++ request)
    → ((e : Err) × (verify_handshake F b ≡ err e))
      ⊎ ((verify_handshake F b ≡ ok (F.address key, request)) × (b.id ≡ id))
verify_handshake-Bound F b key id request hb hi named only =
    elim (Result-cases (verify_handshake F b)) [
      | inl (e, q) ↦ inl (e, q)
      | inr ((account, raw), q) ↦
          let g = accepted-binds F b account raw key id request hb hi named only q in
          inr (rw (← g.1, ← g.2) q, g.0)
    ]
