-- ===== src/Handshake/Authentic.antt =====
-- Whoever is served a configuration has signed for the chain's session, in its account's name.
use mathlib.Core.Path.{subst}
use dvpnd.Prelude.{◌≡◌, refl, sym, ℕ, ◌⊎◌, inl, inr, true, Option, some, List, Bytes}
use dvpnd.Prelude.Results.{Result, ok, err}
use dvpnd.Service.{Service, ServiceLaws, IsPeerData}
use dvpnd.Database.{Database, DatabaseLaws}
use dvpnd.Chain.{Chain, ChainSession, is_active}
use dvpnd.Admission.{Answer, accept, refuse, AdmitResult, Admission, Settings, World}
use dvpnd.Admission.Steps.{Post}
use dvpnd.Admission.Query.{Vetted}
use dvpnd.Admission.Admit.{admit_rule, Admitted, Refused}
use dvpnd.Handshake.{
  Body, Front, Reply, served, http_error, verify_handshake, request, admitted, parsed, verified,
  handler_handshake,
}
use dvpnd.Handshake.Binding.{Signed, verify_handshake-Signed}

module _ (D : Database) (S : Service) (F : Front) (n : Settings) (c : Chain) (b : Body) where
  -- The session is the chain's, live, this node's, and its account's key has signed the body.
  pub record Authentic (raw : Bytes) : Type 0 where
    pub session : ChainSession
    pub known : c.query_session b.id ≡ ok (some session)
    pub live : is_active session.status ≡ true
    pub here : session.node_address ≡ n.node_address
    pub signed : Signed F b session.acc_address raw

  module _ (laws : DatabaseLaws D) (promises : ServiceLaws S) where
    admitted-Authentic :
        (account raw peer_data : Bytes) (w : World D S) (p : Answer AdmitResult × World D S)
        (json : Bytes) (addrs : List Bytes) (header : Option Bytes)
        → Signed F b account raw
        → Post D S
            (λ _ w'.
              (a : Admission) × Vetted n c (request D S F n c b account peer_data) a
              × Admitted D S laws promises n (request D S F n c b account peer_data) a w w')
            (λ _ w'. Refused D S laws promises n (request D S F n c b account peer_data) w w')
            p
        → (admitted D S F n c b raw p).0 ≡ served json addrs header
        → Authentic raw
    unfolding admitted
    admitted-Authentic account raw peer_data w (refuse e, w') json addrs header g p h = cc
    admitted-Authentic account raw peer_data w (accept r, w') json addrs header g p h = record {
      session = p.0.session;
      known = p.1.known;
      live = p.1.live;
      here = p.1.node;
      signed = subst (λ x. Signed F b x raw) (sym p.1.account) g;
    }

    -- What the service's parser hands on is peer data.
    module _ (parses : (raw d : Bytes) → F.parse_peer_request raw ≡ ok d → IsPeerData d) where
      parsed-Authentic :
          (account raw : Bytes) (w : World D S) (o : Result Bytes) (json : Bytes)
          (addrs : List Bytes) (header : Option Bytes)
          → promises.IsValid w.svc
          → Signed F b account raw
          → F.parse_peer_request raw ≡ o
          → (parsed D S F n c b account raw w o).0 ≡ served json addrs header
          → Authentic raw
      unfolding parsed
      parsed-Authentic account raw w (err e) json addrs header v g q h = cc
      parsed-Authentic account raw w (ok d) json addrs header v g q h =
          admitted-Authentic account raw d w _ json addrs header g
            (admit_rule D S laws promises n (request D S F n c b account d) c w (parses raw d q) v)
            h

      verified-Authentic :
          (w : World D S) (o : Result (Bytes × Bytes)) (json : Bytes) (addrs : List Bytes)
          (header : Option Bytes)
          → promises.IsValid w.svc
          → verify_handshake F b ≡ o
          → (verified D S F n c b w o).0 ≡ served json addrs header
          → (raw : Bytes) × Authentic raw
      unfolding verified
      verified-Authentic w (err e) json addrs header v q h = cc
      verified-Authentic w (ok (account, raw)) json addrs header v q h = (
        raw,
        parsed-Authentic account raw w _ json addrs header v
            (verify_handshake-Signed F b account raw q) refl h,
      )

      reply-Authentic :
          (w : World D S) (r : Reply)
          → promises.IsValid w.svc
          → (handler_handshake D S F n c (some b) w).0 ≡ r
          → ((status : ℕ) × (code : ℕ) × (r ≡ http_error status code))
            ⊎ ((raw : Bytes) × Authentic raw)
      unfolding handler_handshake
      reply-Authentic w (http_error status code) v h = inl (status, code, refl)
      reply-Authentic w (served json addrs header) v h =
          inr (verified-Authentic w _ json addrs header v refl h)

      -- With a lawful database and service, a service in a valid state and a parser that hands on
      -- peer data: a handshake is answered with an error, or its id is that of a session that the
      -- chain holds, active and on this node, and the signature that its body carries verifies, for
      -- that id and the body's peer request, under the key whose address is the session's account.
      pub handler_handshake-Authentic :
          (w : World D S)
          → promises.IsValid w.svc
          → ((status : ℕ) × (code : ℕ) × ((handler_handshake D S F n c (some b) w).0
                ≡ http_error status code))
            ⊎ ((raw : Bytes) × Authentic raw)
      handler_handshake-Authentic w v = reply-Authentic w _ v refl
