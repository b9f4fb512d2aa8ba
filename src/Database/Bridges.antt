-- ===== src/Database/Bridges.antt =====
-- database/repository.py: the bridges; main.py: the two routes that change one, once the request has
-- been given its account.
pub mod Inactive
mod Tests
use healpipe.Prelude.{
  ℕ, suc, String, Bool, true, false, not, ◌&&◌, ◌||◌, Option, none, some, List, [], ◌∷◌, ◌++◌, map,
  ◌==◌, nat_eq, if◌then◌else◌,
}
use healpipe.Prelude.Table.{select, find, update_where, order_by}
use healpipe.Database.Schema.{Uuid, Time, DataBridge}
use healpipe.Database.State.{Db, Result, ok, err, runtime_error, http_exception}

abbrev pub has_bridge_id : Uuid → DataBridge → Bool
has_bridge_id i b = b.bridge_id == i

-- `signature_secret` is what `secrets.token_urlsafe(48)` gives.
unfoldable pub create_data_bridge :
    String
    → String
    → String
    → (signature_secret : String) → Uuid
    → Time
    → Db
    → Result DataBridge × Db
create_data_bridge bridge_name source_platform target_endpoint_url signature_secret account now db =
    let bridge : DataBridge = record {
      bridge_id = db.next_id;
      account_id = account;
      bridge_name = bridge_name;
      source_platform = source_platform;
      target_endpoint_url = target_endpoint_url;
      signature_secret = signature_secret;
      is_active = true;
      created_at = now;
    } in
    if db.configured
    then (
      ok bridge,
      record db { next_id = suc db.next_id; data_bridges = db.data_bridges ++ bridge ∷ [] },
    )
    else (err (runtime_error "DATABASE_URL is not configured"), db)

abbrev pub of_account : Option Uuid → DataBridge → Bool
of_account none b = true
of_account (some account) b = b.account_id == account

unfoldable pub get_active_data_bridge : Uuid → Option Uuid → Db → Option DataBridge
get_active_data_bridge bridge_id account db =
    if db.configured
    then find (λ b. has_bridge_id bridge_id b && (b.is_active && of_account account b))
        db.data_bridges
    else none

abbrev pub set_active : Bool → DataBridge → DataBridge
set_active is_active b = record b { is_active = is_active }

unfoldable pub set_data_bridge_active : Uuid → Bool → Db → Option DataBridge × Db
set_data_bridge_active bridge_id is_active db =
    if db.configured
    then elim (find (has_bridge_id bridge_id) db.data_bridges) [
      | none ↦ (none, db)
      | some b ↦ (
        some (set_active is_active b),
        record db {
          data_bridges =
              update_where (has_bridge_id bridge_id) (set_active is_active) db.data_bridges;
        },
      )
    ]
    else (none, db)

abbrev pub delete_data_bridge : Uuid → Db → Option DataBridge × Db
delete_data_bridge bridge_id db = set_data_bridge_active bridge_id false db

unfoldable pub fetch_data_bridges : (include_inactive : Bool) → Option Uuid → Db → List DataBridge
fetch_data_bridges include_inactive account db =
    if db.configured
    then order_by (λ b. b.created_at)
        (select (λ b. (include_inactive || b.is_active) && of_account account b) db.data_bridges)
    else []

-- The routes PATCH and DELETE of a bridge, for the account of the request.
unfoldable pub update_bridge_status : Uuid → Uuid → Bool → Db → Result DataBridge × Db
update_bridge_status account bridge_id is_active db =
    elim (get_active_data_bridge bridge_id (some account) db) [
      | none ↦ (err (http_exception 404 "Active data bridge was not found"), db)
      | some _ ↦
          let (bridge, after) = set_data_bridge_active bridge_id is_active db in
          elim bridge [
            | none ↦ (err (http_exception 404 "Data bridge was not found"), after)
            | some b ↦ (ok b, after)
          ]
    ]

unfoldable pub delete_bridge : Uuid → Uuid → Db → Result (Unit {0}) × Db
delete_bridge account bridge_id db = elim (get_active_data_bridge bridge_id (some account) db) [
  | none ↦ (err (http_exception 404 "Active data bridge was not found"), db)
  | some _ ↦
      let (bridge, after) = delete_data_bridge bridge_id db in
      elim bridge [
        | none ↦ (err (http_exception 404 "Data bridge was not found"), after)
        | some b ↦ (ok tt, after)
      ]
]
