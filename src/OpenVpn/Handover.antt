-- ===== src/OpenVpn/Handover.antt =====
-- A client that leaves: its live counters move to the bank, and the reported total does not.
use dvpnd.Prelude.{
  ◌≡◌, refl, sym, ap, ◌∙◌, Option, none, some, List, [], ◌∷◌, Bytes, bytes_eq, bytes_eq_refl,
  if◌then◌else◌, Bool-cases, inl, inr,
}
use dvpnd.Prelude.Int.{ℤ, pos, ◌+ℤ◌, wrap64}
use dvpnd.Prelude.Table.{lookup}
use dvpnd.Service.{Usage}
use dvpnd.OpenVpn.{
  OpenVpn, Holder, holder_name, Traffic, traffic_key, add_traffic, with_traffic, banked,
  disconnected, live_row, plus_live, add_live, banked_usage, usage_of,
}
use dvpnd.OpenVpn.Status.{ClientStatus}

-- The common names that are filed under a key.
unfoldable pub filed_under : Bytes → List Holder → List Holder
filed_under key [] = []
filed_under key (h ∷ hs) =
    let rest = filed_under key hs in if bytes_eq h.key key then h ∷ rest else rest

unfoldable pub plus_all : List ClientStatus → List Holder → Usage → Usage
plus_all rows [] u = u
plus_all rows (h ∷ hs) u = plus_all rows hs (plus_live u (live_row h.common_name rows))

add_live-filed :
    (key : Bytes) (rows : List ClientStatus) (hs : List Holder) (u : Usage)
    → add_live key rows hs u ≡ plus_all rows (filed_under key hs) u
unfolding add_live filed_under plus_all
add_live-filed key rows [] u = refl
add_live-filed key rows (h ∷ hs) u = elim (Bool-cases (bytes_eq h.key key)) [
  | inl y ↦ rw y (add_live-filed key rows hs _)
  | inr n ↦ rw n (add_live-filed key rows hs u)
]

single :
    (rows : List ClientStatus) (hs : List Holder) (u : Usage) (h : Holder)
    → filed_under h.key hs ≡ h ∷ []
    → add_live h.key rows hs u ≡ plus_live u (live_row h.common_name rows)
unfolding plus_all
single rows hs u h f = add_live-filed h.key rows hs u ∙ ap (λ fs. plus_all rows fs u) f

-- A key's banked usage after a connection's traffic is added to it.
abbrev plus : Usage → ℤ → ℤ → Usage
plus u up down = record u {
  upload = wrap64 (u.upload +ℤ up);
  download = wrap64 (u.download +ℤ down);
}

added_usage :
    (key : Bytes) (up down : ℤ) (ts : List Traffic) (t : Traffic)
    → lookup traffic_key key ts ≡ some t
    → banked_usage key (lookup traffic_key key (add_traffic key up down ts))
      ≡ plus (banked_usage key (some t)) up down
unfolding lookup add_traffic
added_usage key up down [] t h = absurd (cc)
added_usage key up down (x ∷ ts) t h = elim (Bool-cases (bytes_eq x.key key)) [
  | inl y ↦
      let k : some x ≡ some t = rw y at h in let same : x ≡ t = cc in rw y (rw y (rw same refl))
  | inr n ↦ rw n (rw n (added_usage key up down ts t (rw n at h)))
]

banked-traffic :
    (key : Bytes) (up down : ℤ) (ts : List Traffic) (o : Option Traffic)
    → lookup traffic_key key ts ≡ o
    → banked_usage key (lookup traffic_key key (add_traffic key up down (with_traffic key ts o)))
      ≡ plus (banked_usage key o) up down
banked-traffic key up down ts (some t) h = added_usage key up down ts t h
banked-traffic key up down ts none h =
    added_usage key up down _ (record { key = key; upload = pos 0; download = pos 0 })
      (unfold lookup in rw (bytes_eq_refl key) refl)

-- When a registered key has one common name, and that client's connection leaves the status table,
-- handing its final counters to disconnected, the usage that Peers reports of the key is the same
-- before, from the live row, and after, from the bank.
pub usage_of-disconnected :
    (s : OpenVpn) (h : Holder) (row : ClientStatus) (before after : List ClientStatus)
    → filed_under h.key s.by_cn ≡ h ∷ []
    → lookup holder_name h.common_name s.by_cn ≡ some h
    → live_row h.common_name before ≡ some row
    → live_row h.common_name after ≡ none
    → usage_of (disconnected h.common_name row.received row.sent s) after h.key
      ≡ usage_of s before h.key
unfolding usage_of disconnected banked
usage_of-disconnected s h row before after f l b a = rw l (
    single after s.by_cn
      (banked_usage h.key (
        lookup traffic_key h.key (
          add_traffic h.key row.received row.sent
            (with_traffic h.key s.closed (lookup traffic_key h.key s.closed)))))
      h f
    ∙ ap (plus_live _) a
    ∙ banked-traffic h.key row.received row.sent s.closed _ refl
    ∙ sym (
        single before s.by_cn (banked_usage h.key (lookup traffic_key h.key s.closed)) h f
        ∙ ap (plus_live _) b))
