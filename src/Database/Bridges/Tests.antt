-- ===== src/Database/Bridges/Tests.antt =====
-- The theorem on inactive bridges at a concrete table.
use healpipe.Prelude.{true, false, List, [], ◌∷◌, ◌≡◌, refl, arith}
use healpipe.Prelude.Table.{count_where, find}
use healpipe.Database.Schema.{DataBridge}
use healpipe.Database.State.{Db, err, http_exception}
use healpipe.Database.Bridges.{update_bridge_status}
use healpipe.Database.Bridges.Inactive.{BridgeCall, run, IsInactive, run-IsInactive}
use healpipe.Samples.{empty_db}

abbrev closed_bridge : DataBridge
closed_bridge = record {
  bridge_id = 9;
  account_id = 7;
  bridge_name = "orders";
  source_platform = "shop";
  target_endpoint_url = "https://example.org";
  signature_secret = "s3cret";
  is_active = false;
  created_at = 1;
}

abbrev bridges_db : Db
bridges_db = record empty_db { data_bridges = closed_bridge ∷ [] }

closed_bridge-IsInactive : IsInactive 9 closed_bridge bridges_db
unfolding find count_where
closed_bridge-IsInactive = (refl, refl, omega arith)

abbrev some_calls : List BridgeCall
some_calls = BridgeCall.patch 7 9 true ∷ BridgeCall.delete 7 9 ∷ BridgeCall.patch 8 9 true ∷ []

run-IsInactive_example :
    IsInactive 9 closed_bridge (run some_calls bridges_db)
    × (update_bridge_status 7 9 true (run some_calls bridges_db)
        ≡ (err (http_exception 404 "Active data bridge was not found"), run some_calls bridges_db))
run-IsInactive_example =
    run-IsInactive some_calls 9 7 closed_bridge bridges_db closed_bridge-IsInactive
