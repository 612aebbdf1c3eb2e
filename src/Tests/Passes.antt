-- ===== src/Tests/Passes.antt =====
-- The jobs' theorems on a table with session 7 and a peer that has moved data.
use dvpnd.Prelude.{
  ◌≡◌, refl, Bool, false, true, [], ◌∷◌, inl, inr, some, none, if◌then◌else◌, ◌==◌, All,
}
use dvpnd.Prelude.Int.{pos, ◌+ℤ◌, wrap64}
use dvpnd.Prelude.Base64.{encode}
use dvpnd.Session.{Session, served_bytes}
use dvpnd.Service.{Usage}
use dvpnd.WireGuard.Fills.{service}
use dvpnd.Jobs.{Outbox, set_one, check_session, check_each, report_sessions}
use dvpnd.Jobs.Metering.{Metered, with_usage, set_one-Metered, served_bytes-reported}
use dvpnd.Jobs.Checking.{AnswerRule, check_session_rule}
use dvpnd.Jobs.Passes.{Spared}
use dvpnd.Jobs.Reporting.{In, all_good}
use dvpnd.Jobs.Recheck.{Reached, report_sessions-Reached}
use dvpnd.Jobs.Restart.{Outcome, reconcile_sessions, reconcile_sessions-Outcome}
use dvpnd.Tests.World.{table, table_laws, chain, served_world, row, peer_data}

abbrev usage : Usage
usage = record { key = encode peer_data; upload = pos 30; download = pos 40 }

served_bytes-reported_example :
    served_bytes (with_usage usage (pos 8) row) ≡ wrap64 (pos 30 +ℤ pos 40)
served_bytes-reported_example = served_bytes-reported row usage (pos 8)

set_one-Metered_example :
    Metered table service usage [] served_world (set_one table service usage [] served_world)
set_one-Metered_example = set_one-Metered table service table_laws usage [] served_world

check_session_rule_example : AnswerRule chain row (chain.query_session 7) (check_session chain row)
check_session_rule_example = check_session_rule chain row

spared : All (Spared table service chain row) (row ∷ [])
unfolding check_session wrap64 ◌+ℤ◌
spared = (inl refl, tt)

kept : In row (check_each table service chain (row ∷ []) served_world).kept
unfolding check_each check_session wrap64 ◌+ℤ◌
kept = inl refl

-- A chain that does not take session 8.
abbrev fine : Session → Bool
fine s = if s.id == 8 then false else true

abbrev outbox : Outbox
outbox = record {
  answer = λ n batch. if all_good fine batch then none else some 1;
  sends = 0;
  accepted = [];
}

report_sessions-Reached_example :
    Reached fine 1 chain
      (record row { id = 8 } ∷ row ∷ [])
      row
      (report_sessions chain (record row { id = 8 } ∷ row ∷ []) outbox).1
report_sessions-Reached_example =
    report_sessions-Reached fine 1 chain (record row { id = 8 } ∷ row ∷ []) outbox row
      (λ n batch. refl) (inr (inl refl))

reconcile_sessions-Outcome_example :
    Outcome table service chain served_world outbox
      (reconcile_sessions table service chain served_world outbox)
reconcile_sessions-Outcome_example =
    reconcile_sessions-Outcome table service table_laws chain served_world outbox
