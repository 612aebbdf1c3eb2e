-- ===== src/Xray/Answers.antt =====
-- When the calls of xray's AddPeer and RemovePeer fail, by what the process answers.
use dvpnd.Prelude.{
  ◌≡◌, refl, sym, ◌⊎◌, ◌||◌, Bool, true, false, Option, none, some, [], Bytes, Bool-cases, inl, inr,
}
use dvpnd.Prelude.Base64.{encode}
use dvpnd.Prelude.Results.{Err, Result, ok, err}
use dvpnd.Xray.Fields.{Protowire}
use dvpnd.Xray.{
  Xray, Reply, replied, not_found, failed, bad_peer_data, no_connection, api_failed, client_conn,
  invoke, check_peer_data, add_over, added, add_peer, remove_over, forgotten, remove_peer,
}

client_conn-api :
    (s : Xray)
    → ((s.connected || s.dials) ≡ (client_conn s).0)
      × ((client_conn s).1.api (client_conn s).1.calls ≡ s.api s.calls)
unfolding client_conn
client_conn-api s = elim (Bool-cases s.connected) [
  | inl y ↦ rw y (refl, refl)
  | inr n ↦
      rw n (elim (Bool-cases s.dials) [ inl y ↦ rw y (refl, refl) | inr m ↦ rw m (refl, refl) ])
]

-- A call cannot be made: the peer data are bad, or there is no connection and none can be opened.
abbrev pub Unsent : Bytes → Xray → Type 0
Unsent d s = (check_peer_data d ≡ false) ⊎ ((s.connected || s.dials) ≡ false)

abbrev pub Sent : Bytes → Xray → Type 0
Sent d s = (check_peer_data d ≡ true) × ((s.connected || s.dials) ≡ true)

-- AddPeer fails when the call cannot be made or xray answers with an error, and only then.
abbrev pub AddAnswer : Bytes → Xray → Result Bytes → Type 0
AddAnswer d s o =
    ((Unsent d s ⊎ ((s.api s.calls ≡ not_found) ⊎ (s.api s.calls ≡ failed)))
      × ((e : Err) × (o ≡ err e)))
    ⊎ (Sent d s × ((b : Bytes) × (s.api s.calls ≡ replied b)) × (o ≡ ok []))

-- RemovePeer fails when the call cannot be made or xray answers with an error other than that it
-- does not know the user, and only then.
abbrev pub RemoveAnswer : Bytes → Xray → Option Err → Type 0
RemoveAnswer d s o =
    ((Unsent d s ⊎ (s.api s.calls ≡ failed)) × ((e : Err) × (o ≡ some e)))
    ⊎ (Sent d s
        × ((s.api s.calls ≡ not_found) ⊎ ((b : Bytes) × (s.api s.calls ≡ replied b)))
        × (o ≡ none))

module _ (w : Protowire) where
  added-Answer :
      (d : Bytes) (s : Xray) (r : Reply × Xray)
      → Sent d s
      → r.0 ≡ s.api s.calls
      → AddAnswer d s (added (encode d) r).0
  added-Answer d s (replied b, x) g h = inr (g, (b, sym h), refl)
  added-Answer d s (not_found, x) g h = inl (inr (inl (sym h)), (api_failed, refl))
  added-Answer d s (failed, x) g h = inl (inr (inr (sym h)), (api_failed, refl))

  add_over-Answer :
      (d : Bytes) (s : Xray) (c : Bool × Xray)
      → check_peer_data d ≡ true
      → (s.connected || s.dials) ≡ c.0
      → c.1.api c.1.calls ≡ s.api s.calls
      → AddAnswer d s (add_over w d c).0
  unfolding add_over invoke
  add_over-Answer d s (false, x) g h k = inl (inl (inr h), (no_connection, refl))
  add_over-Answer d s (true, x) g h k = added-Answer d s _ (g, h) k

  add_peer-sent :
      (d : Bytes) (s : Xray)
      → check_peer_data d ≡ true
      → add_peer w d s ≡ add_over w d (client_conn s)
  unfolding add_peer
  add_peer-sent d s y = rw y refl

  add_peer-bad :
      (d : Bytes) (s : Xray) → check_peer_data d ≡ false → add_peer w d s ≡ (err bad_peer_data, s)
  unfolding add_peer
  add_peer-bad d s n = rw n refl

  pub add_peer-Answer : (d : Bytes) (s : Xray) → AddAnswer d s (add_peer w d s).0
  add_peer-Answer d s = elim (Bool-cases (check_peer_data d)) [
    | inr n ↦ rw (add_peer-bad d s n) (inl (inl (inl n), (bad_peer_data, refl)))
    | inl y ↦
        rw (add_peer-sent d s y)
          (add_over-Answer d s (client_conn s) y (client_conn-api s).0 (client_conn-api s).1)
  ]

  forgotten-Answer :
      (d : Bytes) (s : Xray) (r : Reply × Xray)
      → Sent d s
      → r.0 ≡ s.api s.calls
      → RemoveAnswer d s (forgotten (encode d) r).0
  forgotten-Answer d s (replied b, x) g h = inr (g, inr (b, sym h), refl)
  forgotten-Answer d s (not_found, x) g h = inr (g, inl (sym h), refl)
  forgotten-Answer d s (failed, x) g h = inl (inr (sym h), (api_failed, refl))

  remove_over-Answer :
      (d : Bytes) (s : Xray) (c : Bool × Xray)
      → check_peer_data d ≡ true
      → (s.connected || s.dials) ≡ c.0
      → c.1.api c.1.calls ≡ s.api s.calls
      → RemoveAnswer d s (remove_over w d c).0
  unfolding remove_over invoke
  remove_over-Answer d s (false, x) g h k = inl (inl (inr h), (no_connection, refl))
  remove_over-Answer d s (true, x) g h k = forgotten-Answer d s _ (g, h) k

  remove_peer-sent :
      (d : Bytes) (s : Xray)
      → check_peer_data d ≡ true
      → remove_peer w d s ≡ remove_over w d (client_conn s)
  unfolding remove_peer
  remove_peer-sent d s y = rw y refl

  remove_peer-bad :
      (d : Bytes) (s : Xray)
      → check_peer_data d ≡ false
      → remove_peer w d s ≡ (some bad_peer_data, s)
  unfolding remove_peer
  remove_peer-bad d s n = rw n refl

  pub remove_peer-Answer : (d : Bytes) (s : Xray) → RemoveAnswer d s (remove_peer w d s).0
  remove_peer-Answer d s = elim (Bool-cases (check_peer_data d)) [
    | inr n ↦ rw (remove_peer-bad d s n) (inl (inl (inl n), (bad_peer_data, refl)))
    | inl y ↦
        rw (remove_peer-sent d s y)
          (remove_over-Answer d s (client_conn s) y (client_conn-api s).0 (client_conn-api s).1)
  ]
