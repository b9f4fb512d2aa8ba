-- ===== src/Database/Bridges/Inactive.antt =====
-- What becomes of a bridge that was deactivated.
use healpipe.Prelude.{
  ◌≤◌, Bool, true, false, ◌&&◌, Option, none, some, List, [], ◌∷◌, ◌==◌, nat_eq, ◌≡◌, refl, ap,
  arith, ◌⊎◌, inl, inr, Bool-cases, Option-cases,
}
use healpipe.Prelude.Table.{
  count_where, find, find_sound, find-find_unique, find-update_where, count_where-update_where_same,
}
use healpipe.Database.Schema.{Uuid, DataBridge}
use healpipe.Database.State.{Db, err, http_exception}
use healpipe.Database.Bridges.{
  has_bridge_id, of_account, get_active_data_bridge, set_active, set_data_bridge_active,
  update_bridge_status, delete_bridge,
}

pub data BridgeCall : Type 0 where
  patch : (account bridge : Uuid) → Bool → BridgeCall
  delete : (account bridge : Uuid) → BridgeCall

unfoldable pub call : BridgeCall → Db → Db
call (patch account i is_active) db = (update_bridge_status account i is_active db).1
call (delete account i) db = (delete_bridge account i db).1

unfoldable pub run : List BridgeCall → Db → Db
run [] db = db
run (c ∷ cs) db = run cs (call c db)

-- The bridge is in the table, inactive, and the only one of its identifier.
abbrev pub IsInactive : Uuid → DataBridge → Db → Type 0
IsInactive i b db =
    (find (has_bridge_id i) db.data_bridges ≡ some b)
    × (b.is_active ≡ false)
    × (count_where (has_bridge_id i) db.data_bridges ≤ 1)

no_active :
    (i : Uuid) (account : Option Uuid) (bs : List DataBridge) (b : DataBridge)
    → find (has_bridge_id i) bs ≡ some b
    → b.is_active ≡ false
    → count_where (has_bridge_id i) bs ≤ 1
    → find (λ b. has_bridge_id i b && (b.is_active && of_account account b)) bs ≡ none
no_active i account bs b found off one =
    let p = λ (c : DataBridge). has_bridge_id i c && (c.is_active && of_account account c) in
    elim (Option-cases (find p bs)) [
      | inl e ↦ e
      | inr (a, e) ↦
          let sound = find_sound p bs {a = a} e in
          let same = find-find_unique p (has_bridge_id i) bs {a = a} e (ground arith) one in
          absurd (ground arith)
    ]

set-IsInactive :
    (i j : Uuid) (is_active : Bool) (b : DataBridge) (db : Db)
    → (i == j) ≡ false
    → IsInactive i b db
    → IsInactive i b (set_data_bridge_active j is_active db).1
unfolding set_data_bridge_active
set-IsInactive i j is_active b db apart h =
    let p = has_bridge_id i in
    let f =
      find-update_where p (has_bridge_id j) (set_active is_active) db.data_bridges (λ x k. refl) in
    let c =
      count_where-update_where_same p (has_bridge_id j) (set_active is_active) db.data_bridges
        (λ x k. refl) in
    let sound = find_sound p db.data_bridges h.0 in ground arith

inactive_404 :
    (i account : Uuid) (b : DataBridge) (db : Db)
    → IsInactive i b db
    → get_active_data_bridge i (some account) db ≡ none
unfolding get_active_data_bridge
inactive_404 i account b db h =
    let e = no_active i (some account) db.data_bridges b h.0 h.1 h.2 in ground arith

-- Both routes leave the database alone, or set the status of a bridge that is active.
route_cases :
    (account j : Uuid) (is_active : Bool) (db : Db)
    → ((update_bridge_status account j is_active db).1 ≡ db) × ((delete_bridge account j db).1 ≡ db)
      ⊎ ((a : DataBridge) × (get_active_data_bridge j (some account) db ≡ some a))
        × ((update_bridge_status account j is_active db).1
            ≡ (set_data_bridge_active j is_active db).1)
        × ((delete_bridge account j db).1 ≡ (set_data_bridge_active j false db).1)
unfolding update_bridge_status delete_bridge
route_cases account j is_active db = ground arith

other :
    (i j account : Uuid) (b a : DataBridge) (db : Db)
    → IsInactive i b db
    → get_active_data_bridge j (some account) db ≡ some a
    → (i == j) ≡ false
other i j account b a db h active = elim (Bool-cases (i == j)) [
  | inr apart ↦ apart
  | inl same ↦
      let e : j ≡ i = ground arith in
      let none_active = inactive_404 i account b db h in
      absurd (cc (ap (λ k. get_active_data_bridge k (some account) db) e))
]

call-IsInactive :
    (c : BridgeCall) (i : Uuid) (b : DataBridge) (db : Db)
    → IsInactive i b db
    → IsInactive i b (call c db)
unfolding call
call-IsInactive (patch account j is_active) i b db h = elim (route_cases account j is_active db) [
  | inl (same, _) ↦ rw same h
  | inr ((a, active), set, _) ↦
      rw set (set-IsInactive i j is_active b db (other i j account b a db h active) h)
]
call-IsInactive (delete account j) i b db h = elim (route_cases account j false db) [
  | inl (_, same) ↦ rw same h
  | inr ((a, active), _, set) ↦
      rw set (set-IsInactive i j false b db (other i j account b a db h active) h)
]

-- A bridge that is inactive stays so: whatever status changes and deletions of bridges are asked
-- for, by whatever accounts, its row stays as it is, and a request to activate it is answered with
-- 404. (Where no other bridge has its identifier.)
pub run-IsInactive :
    (cs : List BridgeCall) (i account : Uuid) (b : DataBridge) (db : Db)
    → IsInactive i b db
    → IsInactive i b (run cs db)
      × (update_bridge_status account i true (run cs db)
          ≡ (err (http_exception 404 "Active data bridge was not found"), run cs db))
unfolding run update_bridge_status
run-IsInactive [] i account b db h =
    (h, rw (inactive_404 i account b db h, update_bridge_status) refl)
run-IsInactive (c ∷ cs) i account b db h =
    run-IsInactive cs i account b (call c db) (call-IsInactive c i b db h)
