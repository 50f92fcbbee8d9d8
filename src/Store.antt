-- ===== src/Store.antt =====
-- internal/store/store.go: the table of resources and the methods of `Store`. The SQL statements
-- are functions on the rows; `fails` says that the driver returned an error, with nothing written.
pub mod Bindings
pub mod Keys
pub mod Opening
use komari_bridge.Base.{
  ℕ, ◌+◌, String, ◌==◌, Bool, true, false, not, ◌&&◌, ◌||◌, Option, none, some, List, [], ◌∷◌, any,
  eqb, if◌then◌else◌, Result, ok, err,
}
use komari_bridge.Model.{Identity, valid, Snapshot, Binding}

-- A row of `resources`. An unset `last_reported` is NULL.
pub record Row : Type 0 where
  pub source_type : String
  pub source_id : String
  pub external_id : String
  pub parent_external_id : String
  pub name : String
  pub resource_type : String
  pub group_name : String
  pub komari_uuid : String
  pub komari_token : String
  pub last_seen : ℕ
  pub last_reported : Option ℕ

abbrev pub Table : Type 0
Table = List Row

pub data StoreError : Type 0 where
  invalid_identity invalid_binding not_bound resource_not_found driver_error : StoreError

abbrev pub key_of : Row → Identity
key_of r = record {
  source_type = r.source_type;
  source_id = r.source_id;
  external_id = r.external_id;
}

unfoldable pub same : Identity → Identity → Bool
same i j =
    (i.source_type == j.source_type)
    && (i.source_id == j.source_id)
    && (i.external_id == j.external_id)

-- `WHERE source_type = ? AND source_id = ? AND external_id = ?`
abbrev pub has_key : Identity → Row → Bool
has_key i r = same (key_of r) i

-- `SELECT … WHERE` by the primary key.
unfoldable pub select : Identity → Table → Option Row
select i [] = none
select i (r ∷ rows) = if has_key i r then some r else select i rows

-- `UPDATE … SET … WHERE` by the primary key.
unfoldable pub update : Identity → (Row → Row) → Table → Table
update i change [] = []
update i change (r ∷ rows) =
    let rest = update i change rows in if has_key i r then change r ∷ rest else r ∷ rest

-- The rows that such an update affects.
unfoldable pub affected : Identity → Table → ℕ
affected i [] = 0
affected i (r ∷ rows) = let rest = affected i rows in if has_key i r then rest + 1 else rest

module _ {F : Type 0} where
  abbrev pub new_row : Snapshot F → ℕ → Row
  new_row s seen = record {
    source_type = s.identity.source_type;
    source_id = s.identity.source_id;
    external_id = s.identity.external_id;
    parent_external_id = s.parent_external_id;
    name = s.name;
    resource_type = s.resource_type;
    group_name = s.group;
    komari_uuid = "";
    komari_token = "";
    last_seen = seen;
    last_reported = none;
  }

  -- `DO UPDATE SET`: the binding and the time of the last report stay.
  abbrev pub refresh : Snapshot F → ℕ → Row → Row
  refresh s seen r = record r {
    parent_external_id = s.parent_external_id;
    name = s.name;
    resource_type = s.resource_type;
    group_name = s.group;
    last_seen = seen;
  }

  -- `INSERT … ON CONFLICT DO UPDATE`.
  unfoldable pub upsert : Snapshot F → ℕ → Table → Table
  upsert s seen [] = new_row s seen ∷ []
  upsert s seen (r ∷ rows) =
      let rest = upsert s seen rows in
      if has_key s.identity r then refresh s seen r ∷ rows else r ∷ rest

  -- `Store.Observe`, at the time `now`.
  unfoldable pub observe : Bool → ℕ → Snapshot F → Table → Result StoreError (Unit {0}) × Table
  unfolding valid upsert
  observe fails now s t =
      let seen = if eqb s.collected_at 0 then now else s.collected_at in
      if not (valid s.identity)
      then (err invalid_identity, t)
      else if fails
      then (err driver_error, t)
      else (ok tt, upsert s seen t)

-- `Store.Binding`.
abbrev pub bound_to : Identity → Option Row → Result StoreError Binding
bound_to i none = err not_bound
bound_to i (some r) =
    if (r.komari_uuid == "") || (r.komari_token == "")
    then err not_bound
    else ok (record { identity = i; komari_uuid = r.komari_uuid; token = r.komari_token })

unfoldable pub binding : Bool → Identity → Table → Result StoreError Binding
unfolding select
binding fails i t = if fails then err driver_error else bound_to i (select i t)

abbrev pub set_binding : Binding → Row → Row
set_binding b r = record r { komari_uuid = b.komari_uuid; komari_token = b.token }

-- The unique index on the non-empty uuids: another row that holds the uuid refuses the update.
abbrev pub taken : Binding → Table → Bool
taken b = any (λ r. not (has_key b.identity r) && (r.komari_uuid == b.komari_uuid))

-- `Store.Bind`. The driver fails before it writes: an error of `RowsAffected`, which would come after
-- the write, is left out.
unfoldable pub bind : Bool → Binding → Table → Result StoreError (Unit {0}) × Table
unfolding valid update affected
bind fails b t =
    let t' = update b.identity (set_binding b) t in
    if not (valid b.identity) || (b.komari_uuid == "") || (b.token == "")
    then (err invalid_binding, t)
    else if fails || (taken b t && not (eqb (affected b.identity t) 0))
    then (err driver_error, t)
    else if eqb (affected b.identity t) 1
    then (ok tt, t')
    else (err resource_not_found, t')

abbrev pub set_reported : ℕ → Row → Row
set_reported at r = record r { last_reported = some at }

-- `Store.MarkReported`.
unfoldable pub mark_reported : Bool → Identity → ℕ → Table → Result StoreError (Unit {0}) × Table
unfolding update
mark_reported fails i at t =
    if fails then (err driver_error, t) else (ok tt, update i (set_reported at) t)
