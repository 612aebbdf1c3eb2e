-- ===== src/Database.antt =====
-- The session table as the node uses it: the gorm calls of api/session/admit.go and node/*.go, and
-- what they rely on. gorm and SQLite are not the repository's, so the calls are a record's fields.
-- A struct given to Where conditions on its non-zero fields only, and a failed call changes nothing.
use dvpnd.Prelude.{
  ℕ, ◌≡◌, Bool, ◌&&◌, ◌||◌, Option, none, some, List, [], ◌∷◌, ◌++◌, Bytes, bytes_eq, ◌==◌,
  if◌then◌else◌, length,
}
use dvpnd.Prelude.Int.{ℤ}
use dvpnd.Prelude.Results.{Err, Result, ok, err}
use dvpnd.Session.{Session}

abbrev pub matches_id : ℕ → Session → Bool
matches_id id r = id == 0 || r.id == id

abbrev pub matches_key : Bytes → Session → Bool
matches_key key r = bytes_eq key [] || bytes_eq r.key key

abbrev pub matches_account : ℕ → Bytes → Session → Bool
matches_account subscription address r =
    (subscription == 0 || r.subscription == subscription)
    && (bytes_eq address [] || bytes_eq r.address address)

unfoldable pub select : (Session → Bool) → List Session → List Session
select test [] = []
select test (r ∷ rs) = let rest = select test rs in if test r then r ∷ rest else rest

pub record Database : Type 1 where
  pub Db : Type 0
  -- The table, in the order in which the calls list it.
  pub rows : Db → List Session
  pub find_all : Db → Result (List Session) × Db
  pub find_account : ℕ → Bytes → Db → Result (List Session) × Db
  pub find_key : Bytes → Db → Result (List Session) × Db
  pub count_id : ℕ → Db → Result ℕ × Db
  pub count_key : Bytes → Db → Result ℕ × Db
  pub create : Session → Db → Option Err × Db
  pub update_usage : ℕ → ℤ → ℤ → Db → Option Err × Db
  pub delete_id : ℕ → Db → Option Err × Db
  pub clear : Db → Option Err × Db

-- A query's answer, if it gives one, is `wanted`, and the table stays.
abbrev pub Reads : (D : Database) {A : Type 0} → D.Db → A → Result A × D.Db → Type 0
Reads D x wanted (err e, y) = D.rows y ≡ D.rows x
Reads D x wanted (ok a, y) = (a ≡ wanted) × (D.rows y ≡ D.rows x)

-- One row more, wherever the table keeps it, with the two times that the call fills in.
abbrev pub Inserted : Session → List Session → List Session → Type 0
Inserted r before after =
    (created : ℤ) × (updated : ℤ) × (xs : List Session) × (ys : List Session) × (before ≡ xs ++ ys)
    × (after ≡ xs ++ (record r { created_at = created; updated_at = updated } ∷ ys))

abbrev pub Creates : (D : Database) → Session → D.Db → Option Err × D.Db → Type 0
Creates D r x (some e, y) = D.rows y ≡ D.rows x
Creates D r x (none, y) = Inserted r (D.rows x) (D.rows y)

-- A write that succeeds leaves the table `wanted`; one that fails leaves it alone.
abbrev pub Writes : (D : Database) → D.Db → List Session → Option Err × D.Db → Type 0
Writes D x wanted (some e, y) = D.rows y ≡ D.rows x
Writes D x wanted (none, y) = D.rows y ≡ wanted

unfoldable pub take_one : List Session → List Session
take_one [] = []
take_one (r ∷ rs) = r ∷ []

-- `Where(id).Updates(upload, download)`, which stamps the rows it changes.
unfoldable pub set_usage : ℕ → ℤ → ℤ → ℤ → List Session → List Session
set_usage id up down now [] = []
set_usage id up down now (r ∷ rs) =
    (if matches_id id r then record r { upload = up; download = down; updated_at = now } else r)
    ∷ set_usage id up down now rs

abbrev pub Updates : (D : Database) → ℕ → ℤ → ℤ → D.Db → Option Err × D.Db → Type 0
Updates D id up down x (some e, y) = D.rows y ≡ D.rows x
Updates D id up down x (none, y) = (now : ℤ) × (D.rows y ≡ set_usage id up down now (D.rows x))

unfoldable pub remove_id : ℕ → List Session → List Session
remove_id id [] = []
remove_id id (r ∷ rs) = let rest = remove_id id rs in if matches_id id r then rest else r ∷ rest

pub record DatabaseLaws (D : Database) : Type 0 where
  pub find_all-Reads : (x : D.Db) → Reads D x (D.rows x) (D.find_all x)
  pub find_account-Reads :
      (subscription : ℕ) (address : Bytes) (x : D.Db)
      → Reads D x
          (select (matches_account subscription address) (D.rows x))
          (D.find_account subscription address x)
  pub find_key-Reads :
      (key : Bytes) (x : D.Db)
      → Reads D x (take_one (select (matches_key key) (D.rows x))) (D.find_key key x)
  pub count_id-Reads :
      (id : ℕ) (x : D.Db) → Reads D x (length (select (matches_id id) (D.rows x))) (D.count_id id x)
  pub count_key-Reads :
      (key : Bytes) (x : D.Db)
      → Reads D x (length (select (matches_key key) (D.rows x))) (D.count_key key x)
  -- Both handshake handlers refuse the id 0, for which gorm would pick an id of its own.
  pub create-Creates : (r : Session) (x : D.Db) → Creates D r x (D.create r x)
  pub update_usage-Updates :
      (id : ℕ) (up down : ℤ) (x : D.Db) → Updates D id up down x (D.update_usage id up down x)
  pub delete_id-Writes :
      (id : ℕ) (x : D.Db) → Writes D x (remove_id id (D.rows x)) (D.delete_id id x)
  pub clear-Writes : (x : D.Db) → Writes D x [] (D.clear x)
