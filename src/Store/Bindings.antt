-- ===== src/Store/Bindings.antt =====
-- What the methods do to the rows that the others read: bindings are kept by observations, and a
-- binding that is written is the one that is read back.
use komari_bridge.Base.{
  ◌∷◌, Option, ◌≢◌, eqb, ℕ, ◌≡◌, refl, Bool, false, none, some, [], arith, ok, eq_iff,
  if◌then◌else◌,
}
use komari_bridge.Model.{Identity, Snapshot, Binding}
use komari_bridge.Store.{
  Table, Row, same, select, upsert, observe, binding, bind, set_binding, update, affected,
  mark_reported, set_reported, bound_to, refresh, new_row, key_of,
}
use komari_bridge.Store.Keys.{same_iff}
use mathlib.Core.Option

module _ (change : Row → Row) (keeps : (r : Row) → key_of (change r) ≡ key_of r) where
  select-update :
      (i j : Identity) (t : Table)
      → select i (update j change t)
        ≡ (if same i j then Option.map change (select i t) else select i t)
  unfolding select update
  select-update i j [] = ground arith
  select-update i j (r ∷ t) = ground (
    arith,
    select-update i j t,
    keeps r,
    same_iff (key_of r) i,
    same_iff (key_of r) j,
    same_iff i j,
  )

select-affected : (i : Identity) (t : Table) → affected i t ≢ 0 → select i t ≢ none
unfolding select affected
select-affected i [] h e = h refl
select-affected i (r ∷ t) h e = ground (arith, select-affected i t)

-- A binding that `Bind` has accepted is what `Binding` returns for its identity; for the others
-- `Binding` returns what it returned before. The driver does not fail here.
pub binding-bind :
    (b : Binding) (i : Identity) (t : Table)
    → (bind false b t).0 ≡ ok tt
    → binding false i (bind false b t).1 ≡ (if same i b.identity then ok b else binding false i t)
unfolding bind binding
binding-bind b i t h = ground (
  arith,
  select-update (set_binding b) (λ r. refl) i b.identity t,
  select-affected i t,
  same_iff i b.identity,
  eq_iff b.komari_uuid "",
  eq_iff b.token "",
)

-- A binding of another identity stays, also where `Bind` fails.
pub binding-bind_other :
    (fails : Bool) (b : Binding) (i : Identity) (t : Table)
    → same i b.identity ≡ false
    → binding false i (bind fails b t).1 ≡ binding false i t
unfolding bind binding
binding-bind_other fails b i t other =
    ground (arith, select-update (set_binding b) (λ r. refl) i b.identity t)

module _ {F : Type 0} (s : Snapshot F) (seen : ℕ) where
  abbrev observed : Option Row → Row
  observed none = new_row s seen
  observed (some r) = refresh s seen r

  -- The row that an observation leaves for its identity keeps the binding; other rows stay.
  select-upsert :
      (i : Identity) (t : Table)
      → select i (upsert s seen t)
        ≡ (if same s.identity i then some (observed (select i t)) else select i t)
  unfolding select upsert
  select-upsert i [] = ground arith
  select-upsert i (r ∷ t) = ground (
    arith,
    select-upsert i t,
    same_iff s.identity i,
    same_iff (key_of r) i,
    same_iff (key_of r) s.identity,
  )

  bound_to-observed :
      (i : Identity) (o : Option Row) → bound_to i (some (observed o)) ≡ bound_to i o
  bound_to-observed i none = refl
  bound_to-observed i (some r) = refl

-- An observation, also one that fails, changes no binding that is read afterwards without a failure
-- of the driver, not of the resource that it observes and not of another.
pub binding-observe :
    {F : Type 0} (fails : Bool) (now : ℕ) (s : Snapshot F) (i : Identity) (t : Table)
    → binding false i (observe fails now s t).1 ≡ binding false i t
unfolding observe binding
binding-observe fails now s i t =
    let seen = if eqb s.collected_at 0 then now else s.collected_at in
    ground (arith, select-upsert s seen i t, bound_to-observed s seen i (select i t))

-- Nor does the time of a report.
pub binding-mark_reported :
    (fails : Bool) (j : Identity) (at : ℕ) (i : Identity) (t : Table)
    → binding false i (mark_reported fails j at t).1 ≡ binding false i t
unfolding mark_reported binding
binding-mark_reported fails j at i t =
    ground (arith, select-update (set_reported at) (λ r. refl) i j t)
