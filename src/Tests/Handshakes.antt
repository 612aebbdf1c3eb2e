-- ===== src/Tests/Handshakes.antt =====
-- The admission and limiter theorems at a handshake for session 7 in an empty table.
use dvpnd.Prelude.{
  ℕ, ◌+◌, ◌≤◌, ◌<◌, ◌≡◌, refl, false, true, List, [], ◌∷◌, arith, inl, inr, ◌⊎◌, some, none, length,
  suc, Bytes,
}
use dvpnd.Prelude.Int.{ℤ, pos, ◌≤ℤ◌, ◌<ℤ◌, ◌-ℤ◌}
use dvpnd.Session.{Session}
use dvpnd.Chain.{Allocation}
use dvpnd.Context.{remove_peer_if_exists}
use dvpnd.Database.{select, matches_id, matches_key}
use dvpnd.WireGuard.{peer_count, peers_len}
use dvpnd.WireGuard.Fills.{service, service_laws}
use dvpnd.Admission.{
  World, Admission, query_admission, allocation_left, utilised, check_capacity, admit, admit_locked,
  peer_key,
}
use dvpnd.Admission.Steps.{Post}
use dvpnd.Admission.Caps.{Holds, CappedBy, SessionCap, allocation_left-CappedBy}
use dvpnd.Admission.Query.{Vetted}
use dvpnd.Admission.Admit.{Admitted, Refused, admit_rule, admit_locked_rule}
use dvpnd.Admission.Runs.{handshake, Run, here, next, WithinLimit, second_refused, Run-WithinLimit}
use dvpnd.Limiter.{RateLimiter, count_of, allow}
use dvpnd.Limiter.{limit_handshakes}
use dvpnd.Limiter.Retries.{Retriable, limit_handshakes-Retriable}
use dvpnd.Limiter.Windows.{Attempt, Opens, Fair, allow-Fair}
use dvpnd.Tests.World.{
  table, table_laws, chain, chain_session, settings, request, world, row, peer_data-IsPeerData,
}

known :
    (0 < length (select (matches_id 7) (row ∷ [])))
    ⊎ (0 < length (select (matches_key (peer_key request)) (row ∷ [])))
unfolding select
known = inl (omega arith)

no_peers : service.peer_count world.svc ≤ 2
unfolding peer_count peers_len
no_peers = omega arith

none_yet : count_of (1 ∷ []) [] ≤ 2
unfolding count_of
none_yet = omega arith

abbrev allocation : Allocation
allocation = record { granted_bytes = pos 500; utilised_bytes = pos 0 }

allocation_left-CappedBy_example :
    Holds
      (λ v.
        CappedBy (pos 500 -ℤ utilised (pos 0) (row ∷ [])) v
        × ((pos 800 ≡ pos 0) ⊎ CappedBy (pos 800) v))
      (allocation_left (pos 800) allocation (row ∷ []))
allocation_left-CappedBy_example =
    allocation_left-CappedBy (pos 800) allocation (row ∷ []) (omega arith)

admit_rule_example :
    Post table service
      (λ _ w'.
        (a : Admission) × Vetted settings chain request a
        × Admitted table service table_laws service_laws settings request a world w')
      (λ _ w'. Refused table service table_laws service_laws settings request world w')
      (admit table service settings chain request world)
admit_rule_example =
    admit_rule table service table_laws service_laws settings request chain world
      peer_data-IsPeerData tt

abbrev admission : Admission
admission = record {
  session = chain_session;
  subscription_id = 5;
  remaining_bytes = pos 800;
  alloc = some allocation;
}

capped : SessionCap chain_session (pos 800)
unfolding ◌-ℤ◌
capped = inr (omega arith, omega arith)

abbrev after_one : World table service
after_one = (admit_locked table service settings request admission world).1

one_run : Run table service table_laws service_laws settings world after_one
one_run = next here (handshake request admission peer_data-IsPeerData capped refl)

Run-WithinLimit_example : WithinLimit table service table_laws service_laws settings after_one
Run-WithinLimit_example =
    Run-WithinLimit table service table_laws service_laws settings one_run (tt, no_peers)

abbrev limiter : RateLimiter
limiter = record { limit = 2; window = 60; start = 100; counts = []; warned = false }

abbrev full_limiter : RateLimiter
full_limiter = record limiter { counts = record { block = 1 ∷ []; count = 2 } ∷ [] }

abbrev attempts : List Attempt
attempts =
    record { at = 101; block = 1 ∷ [] }
    ∷ record { at = 102; block = 1 ∷ [] }
    ∷ record { at = 103; block = 1 ∷ [] }
    ∷ []

allow-Fair_example :
    (m : RateLimiter) × Opens 170 full_limiter m
    × Fair 170 (1 ∷ []) m (allow 170 (1 ∷ []) full_limiter)
allow-Fair_example = allow-Fair full_limiter 170 (1 ∷ [])

admitted : Admitted table service table_laws service_laws settings request admission world after_one
unfolding admit_locked check_capacity peer_count select dvpnd.Admission.cap_bytes allocation_left
    utilised dvpnd.Admission.drop_earlier dvpnd.Admission.register dvpnd.Admission.add_peer
    dvpnd.WireGuard.add_peer dvpnd.Pool.get dvpnd.Pool.get_v4 dvpnd.Pool.new_pool
    dvpnd.Address.from_bytes dvpnd.Pool.skip dvpnd.Pool.get_v6 dvpnd.Admission.record_session
    dvpnd.Address.big_bytes dvpnd.Address.copy dvpnd.Address.next dvpnd.Address.replicate_zero
    dvpnd.Admission.check_full dvpnd.Admission.check_id dvpnd.Admission.check_key
    dvpnd.Admission.clamp_i64 dvpnd.Admission.evict dvpnd.Admission.new_row peer_key
    dvpnd.Context.has_peer dvpnd.Context.remove_peer remove_peer_if_exists dvpnd.Pool.delete
    dvpnd.Pool.is_edge dvpnd.Pool.last_byte dvpnd.Pool.member dvpnd.Pool.release
    dvpnd.Pool.release_pair dvpnd.Pool.reserve dvpnd.Prelude.Base64.decode
    dvpnd.Prelude.Base64.decode_quanta dvpnd.Prelude.Base64.digit dvpnd.Prelude.Base64.digit_value
    dvpnd.Prelude.Base64.drop_breaks dvpnd.Prelude.Base64.encode dvpnd.Prelude.Int.wrap64
    dvpnd.Prelude.Int.◌+ℤ◌ dvpnd.Prelude.Int.◌-ℤ◌ dvpnd.Prelude.bytes_eq dvpnd.Prelude.Table.lookup
    dvpnd.Session.served_bytes peers_len dvpnd.WireGuard.put_peer
admitted =
    admit_locked_rule table service table_laws service_laws settings request admission
      peer_data-IsPeerData world capped tt

second_refused_example :
    Post table service
      (λ _ _. ⊥)
      (λ _ _. Unit {0})
      (admit_locked table service settings request admission after_one)
second_refused_example =
    second_refused table service table_laws service_laws settings request request admission
      admission world after_one admitted refl

-- A block that has used the limit.
limit_handshakes-Retriable_example :
    Retriable 103 (1 ∷ []) (limit_handshakes 103 (1 ∷ []) full_limiter)
limit_handshakes-Retriable_example =
    limit_handshakes-Retriable 103 (1 ∷ []) full_limiter (omega arith)
