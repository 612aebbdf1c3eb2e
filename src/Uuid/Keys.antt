-- ===== src/Uuid/Keys.antt =====
-- The keys that services file a UUID under: equal for equal UUIDs only.
use dvpnd.Prelude.{
  ◌≡◌, sym, ap, ◌∙◌, false, some, Bytes, bytes_eq, bytes_eq-true, bytes_eq_refl, Bool-cases, inl,
  inr,
}
use dvpnd.Prelude.Base64.{encode, decode}
use dvpnd.Prelude.Base64.RoundTrip.{decode-encode}
use dvpnd.Prelude.Results.{Result, ok}
use dvpnd.Uuid.{format_uuid, parse_uuid}
use dvpnd.Uuid.RoundTrip.{IsUuid, parse_uuid-format_uuid}

injective_eq :
    (f : Bytes → Bytes) (d e : Bytes) → (f d ≡ f e → d ≡ e) → bytes_eq (f d) (f e) ≡ bytes_eq d e
injective_eq f d e inj = elim (Bool-cases (bytes_eq d e)) [
  | inl y ↦ rw (bytes_eq-true d e y) (bytes_eq_refl (f e) ∙ sym (bytes_eq_refl e))
  | inr n ↦ elim (Bool-cases (bytes_eq (f d) (f e))) [
    | inr m ↦ m ∙ sym n
    | inl y ↦
        let same : d ≡ e = inj (bytes_eq-true (f d) (f e) y) in
        absurd (let k : bytes_eq e e ≡ false = rw (same) at n in cc (k, bytes_eq_refl e))
  ]
]

module _ (d e : Bytes) (hd : IsUuid d) (he : IsUuid e) where
  same_format : format_uuid d ≡ format_uuid e → d ≡ e
  same_format h =
      let k : ◌≡◌ {A = Result Bytes} (ok d) (ok e) =
        sym (parse_uuid-format_uuid d hd) ∙ ap parse_uuid h ∙ parse_uuid-format_uuid e he in
      cc

  pub format_uuid_eq : bytes_eq (format_uuid d) (format_uuid e) ≡ bytes_eq d e
  format_uuid_eq = injective_eq format_uuid d e same_format

  same_encode : encode d ≡ encode e → d ≡ e
  same_encode h =
      let k : some d ≡ some e = sym (decode-encode d hd.1) ∙ ap decode h ∙ decode-encode e he.1 in
      cc

  pub encode_eq : bytes_eq (encode d) (encode e) ≡ bytes_eq d e
  encode_eq = injective_eq encode d e same_encode
