-- ===== src/Lite/Tx.antt =====
-- lite/tx.go: sending a transaction. The RPC library is not the repository's: each attempt on a remote
-- is a step of a state that holds what the chain and the clock will answer. Signing and encoding are
-- one step, `prepare`.
use dvpnd.Prelude.{
  ℕ, zero, suc, ◌+◌, ◌<◌, ◌≡◌, refl, ap, ltb, ◌==◌, Bool, ◌||◌, Option, none, some, List, [], ◌∷◌,
  ◌++◌, Bytes, lt→ltb, Bool-cases, Option-cases, inl, inr, if◌then◌else◌, arith,
}
use dvpnd.Prelude.Results.{Err, Result, ok, err}

-- The response's code and the hash that it is found by.
pub record TxResponse : Type 0 where
  pub code : ℕ
  pub hash : Bytes

abbrev pub no_client : Err
no_client = 1

abbrev pub not_broadcast : Err
not_broadcast = 2

abbrev pub raw_log : Err
raw_log = 3

abbrev pub not_included : Err
not_included = 4

abbrev pub all_failed : Err
all_failed = 5

-- What the world answers: the n-th look for a hash with what the clock says after it; whether a client
-- for a remote can be made; the answer to the broadcast of bytes on it.
pub record Network : Type 0 where
  pub look : ℕ → Bytes → Option TxResponse
  pub clock : ℕ → ℕ
  pub looks : ℕ
  pub client : Bytes → Bool
  pub broadcast : ℕ → Bytes → Bytes → Result TxResponse
  pub broadcasts : ℕ
  -- the remotes that were sent a transaction, the last one first
  pub sent : List Bytes

abbrev pub included : TxResponse → Result TxResponse
included r = if r.code == 0 then ok r else err raw_log

abbrev pub found_or :
    Option TxResponse
    → Option (Result TxResponse) × Network
    → Network
    → Option (Result TxResponse) × Network
found_or (some r) rest m = (some (included r), m)
found_or none rest m = rest

-- The loop of waitForTx up to a deadline, on fuel; none is the end of the fuel.
unfoldable pub wait_loop : ℕ → ℕ → Bytes → Network → Option (Result TxResponse) × Network
wait_loop zero deadline hash m = (none, m)
wait_loop (suc fuel) deadline hash m =
    let next = record m { looks = suc m.looks } in
    let rest = wait_loop fuel deadline hash next in
    found_or (m.look m.looks hash)
      (if ltb deadline (m.clock m.looks) then (some (err not_included), next) else rest) next

-- sdkerrors.ErrTxInMempoolCache's code
abbrev pub in_mempool_cache : ℕ
in_mempool_cache = 19

abbrev pub answered : ℕ → ℕ → Result TxResponse → Network → Option (Result TxResponse) × Network
unfolding wait_loop
answered fuel deadline (err e) m = (some (err not_broadcast), m)
answered fuel deadline (ok r) m =
    let wait = wait_loop fuel deadline r.hash m in
    if r.code == 0 || r.code == in_mempool_cache then wait else (some (err raw_log), m)

-- broadcastTx; the deadline of its wait is what the clock and the timeout make it.
unfoldable pub broadcast_tx : ℕ → ℕ → Bytes → Bytes → Network → Option (Result TxResponse) × Network
unfolding answered
broadcast_tx fuel timeout tx remote m =
    if m.client remote
    then answered fuel (m.clock m.looks + timeout) (m.broadcast m.broadcasts remote tx)
        (record m { broadcasts = suc m.broadcasts; sent = remote ∷ m.sent })
    else (some (err no_client), m)

abbrev pub or_next :
    {A M : Type 0} → (M → Option (Result A) × M) → Option (Result A) × M → Option (Result A) × M
or_next rest (some (ok a), m) = (some (ok a), m)
or_next rest (some (err e), m) = rest m
or_next rest (none, m) = (none, m)

-- stderrors.Join: nil when there is no error to join, as for an empty list of remotes.
abbrev pub joined : {A : Type 0} → List Err → Result (Option A)
joined [] = ok none
joined (e ∷ es) = err all_failed

abbrev pub or_remote :
    {A M : Type 0}
    → (Err → M → Option (Result (Option A)) × M)
    → Option (Result A) × M
    → Option (Result (Option A)) × M
or_remote rest (some (ok a), m) = (some (ok (some a)), m)
or_remote rest (some (err e), m) = rest e m
or_remote rest (none, m) = (none, m)

-- The loops over the remotes of BroadcastTx and CalculateGas, with the errors so far: the first remote
-- that gives a result wins. `ok none` is a nil result with a nil error.
unfoldable pub first_remote :
    {A M : Type 0}
    → (Bytes → M → Option (Result A) × M)
    → List Bytes
    → List Err
    → M
    → Option (Result (Option A)) × M
first_remote attempt [] errs m = (some (joined errs), m)
first_remote attempt (remote ∷ remotes) errs m =
    or_remote (λ e. first_remote attempt remotes (errs ++ (e ∷ []))) (attempt remote m)

unfoldable pub broadcast_all :
    ℕ → ℕ → Bytes → List Bytes → Network → Option (Result (Option TxResponse)) × Network
unfolding first_remote broadcast_tx
broadcast_all fuel timeout tx remotes = first_remote (broadcast_tx fuel timeout tx) remotes []

-- Tx, over what one attempt does: up to five attempts, each from the account's state as it then is.
unfoldable pub tx_attempts :
    {M : Type 0} → ℕ → (M → Option (Result TxResponse) × M) → M → Option (Result TxResponse) × M
tx_attempts zero attempt m = (some (err all_failed), m)
tx_attempts (suc n) attempt m = or_next (tx_attempts n attempt) (attempt m)

-- The clock passes the deadline within `k` more looks.
abbrev pub Passes : ℕ → ℕ → Network → Type 0
Passes k deadline m = deadline < m.clock (m.looks + k)

-- The loop of waitForTx ends: when the clock is past the deadline at the look number k from now,
-- then with fuel for k + 1 looks it returns a response or an error.
pub wait_loop-returns :
    (k fuel deadline : ℕ) (hash : Bytes) (m : Network)
    → Passes k deadline m
    → k < fuel
    → (r : Result TxResponse) × ((wait_loop fuel deadline hash m).0 ≡ some r)
unfolding wait_loop
wait_loop-returns k zero deadline hash m p h = absurd (omega arith)
wait_loop-returns zero (suc fuel) deadline hash m p h =
    let now : m.looks + 0 ≡ m.looks = omega arith in
    let late : deadline < m.clock m.looks = rw now at p in
    elim (Option-cases (m.look m.looks hash)) [
      | inr (r, e) ↦ rw e (included r, refl)
      | inl e ↦ rw e (rw (lt→ltb deadline (m.clock m.looks) late) (err not_included, refl))
    ]
wait_loop-returns (suc k) (suc fuel) deadline hash m p h =
    let next : m.looks + suc k ≡ suc m.looks + k = omega arith in
    let later =
      wait_loop-returns k fuel deadline hash (record m { looks = suc m.looks }) (rw next at p)
        (omega arith) in
    elim (Option-cases (m.look m.looks hash)) [
      | inr (r, e) ↦ rw e (included r, refl)
      | inl e ↦ rw e (elim (Bool-cases (ltb deadline (m.clock m.looks))) [
        | inl y ↦ rw y (err not_included, refl)
        | inr n ↦ rw n later
      ])
    ]

-- The remotes that were tried in vain, with the states in which they were.
abbrev pub InVain :
    {A M : Type 0} → (Bytes → M → Option (Result A) × M) → List Bytes → M → M → Type 0
InVain attempt [] m m' = m ≡ m'
InVain {A = A} attempt (remote ∷ remotes) m m' =
    (e : Err) × ((attempt remote m).0 ≡ some (err e))
    × InVain attempt remotes (attempt remote m).1 m'

pub Won : {A M : Type 0} → (Bytes → M → Option (Result A) × M) → List Bytes → M → A → M → Type 0
Won {M = M} attempt remotes m a end =
    (tried : List Bytes) × (remote : Bytes) × (rest : List Bytes) × (m' : M) × (remotes
      ≡ tried ++ (remote ∷ rest))
    × InVain attempt tried m m'
    × (attempt remote m' ≡ (some (ok a), end))

module _ {A M : Type 0} (attempt : Bytes → M → Option (Result A) × M) where
  joined-failed : (errs : List Err) (a : A) → joined errs ≡ ok (some a) → ⊥
  joined-failed [] a h = cc h
  joined-failed (e ∷ es) a h = cc h

  given :
      {end : M} {a : A} (p : Option (Result A) × M) (b : A) (m1 : M)
      → p ≡ (some (ok b), m1)
      → ◌≡◌ {A = Option (Result (Option A)) × M} (some (ok (some b)), m1) (some (ok (some a)), end)
      → p ≡ (some (ok a), end)
  given p b m1 e h = cc

  next-Won :
      (remote : Bytes) (remotes : List Bytes) (errs : List Err) (m end : M) (a : A)
      (p : Option (Result A) × M)
      → attempt remote m ≡ p
      → ((es : List Err) (m1 : M)
          → first_remote attempt remotes es m1 ≡ (some (ok (some a)), end)
          → Won attempt remotes m1 a end)
      → or_remote (λ e. first_remote attempt remotes (errs ++ (e ∷ []))) p
        ≡ (some (ok (some a)), end)
      → Won attempt (remote ∷ remotes) m a end
  unfolding Won
  next-Won remote remotes errs m end a (none, m1) e rest h = absurd (cc (ap (λ r. r.0) h))
  next-Won remote remotes errs m end a (some (ok b), m1) e rest h =
      ([], remote, remotes, m, refl, refl, given _ b m1 e h)
  next-Won remote remotes errs m end a (some (err x), m1) e rest h =
      let w = rest (errs ++ (x ∷ [])) m1 h in
      (
        remote ∷ w.0,
        w.1,
        w.2,
        w.3,
        ap (λ rs. remote ∷ rs) w.4,
        (x, ap (λ r. r.0) e, rw (ap (λ r. r.1) e) w.5),
        w.6,
      )

-- A result of the loop over the remotes is that of the first remote that gave one: those before it
-- were tried in their order and failed, and those behind it were not tried.
pub first_remote-Won :
    {A M : Type 0} (attempt : Bytes → M → Option (Result A) × M) (remotes : List Bytes)
    (errs : List Err) (m end : M) (a : A)
    → first_remote attempt remotes errs m ≡ (some (ok (some a)), end)
    → Won attempt remotes m a end
unfolding first_remote
first_remote-Won attempt [] errs m end a h =
    absurd (joined-failed attempt errs a (cc (ap (λ r. r.0) h)))
first_remote-Won attempt (remote ∷ remotes) errs m end a h =
    next-Won attempt remote remotes errs m end a (attempt remote m) refl
      (λ es m1 k. first_remote-Won attempt remotes es m1 end a k) h
