-- ===== src/Store/Keys.antt =====
-- The table's constraints, the primary key and the unique index, under each method.
use komari_bridge.Base.{
  inr, inl, Bool-cases, ◌↔◌, ℕ, ◌≡◌, refl, ◌==◌, eq_iff, Bool, true, false, not, ◌&&◌, ◌||◌, [],
  ◌∷◌, any, arith, eqb, if◌then◌else◌,
}
use komari_bridge.Model.{Identity, Snapshot, Binding}
use komari_bridge.Store.{
  set_reported, Row, Table, key_of, same, has_key, update, affected, upsert, observe, bind,
  set_binding, mark_reported, taken,
}

-- No two rows have one key.
abbrev pub UniqueKeys : Table → Type 0
UniqueKeys [] = Unit
UniqueKeys (r ∷ rows) = (any (has_key (key_of r)) rows ≡ false) × UniqueKeys rows

-- No two rows have one uuid, where it is set.
abbrev pub UniqueUuids : Table → Type 0
UniqueUuids [] = Unit
UniqueUuids (r ∷ rows) =
    (any (λ q. not (r.komari_uuid == "") && (q.komari_uuid == r.komari_uuid)) rows ≡ false)
    × UniqueUuids rows

pub record IsTable (t : Table) : Type 0 where
  pub keys : UniqueKeys t
  pub uuids : UniqueUuids t

pub same_iff : (i j : Identity) → (same i j ≡ true) ↔ (i ≡ j)
unfolding same
same_iff i j = ground (
  arith,
  eq_iff i.source_type j.source_type,
  eq_iff i.source_id j.source_id,
  eq_iff i.external_id j.external_id,
)

module _ (change : Row → Row) (keeps : (r : Row) → key_of (change r) ≡ key_of r) where
  any-update :
      (i j : Identity) (t : Table) → any (has_key j) (update i change t) ≡ any (has_key j) t
  unfolding update
  any-update i j [] = refl
  any-update i j (r ∷ t) = ground (arith, any-update i j t, keeps r)

  update-UniqueKeys : (i : Identity) (t : Table) → UniqueKeys t → UniqueKeys (update i change t)
  unfolding update
  update-UniqueKeys i [] u = tt
  update-UniqueKeys i (r ∷ t) (fresh, u) = ground (
    arith,
    update-UniqueKeys i t u,
    any-update i (key_of r) t,
    any-update i (key_of (change r)) t,
    keeps r,
  )

abbrev shares : Row → Row → Bool
shares r q = not (r.komari_uuid == "") && (q.komari_uuid == r.komari_uuid)

module _ {F : Type 0} (s : Snapshot F) (seen : ℕ) where
  any-upsert :
      (j : Identity) (t : Table)
      → any (has_key j) (upsert s seen t) ≡ (any (has_key j) t || same s.identity j)
  unfolding upsert
  any-upsert j [] = ground arith
  any-upsert j (r ∷ t) = ground (
    arith,
    any-upsert j t,
    same_iff s.identity j,
    same_iff (key_of r) j,
    same_iff (key_of r) s.identity,
  )

  upsert-UniqueKeys : (t : Table) → UniqueKeys t → UniqueKeys (upsert s seen t)
  unfolding upsert
  upsert-UniqueKeys [] u = (refl, tt)
  upsert-UniqueKeys (r ∷ t) (fresh, u) = ground (
    arith,
    upsert-UniqueKeys t u,
    any-upsert (key_of r) t,
    same_iff (key_of r) s.identity,
    same_iff s.identity (key_of r),
  )

  -- Nobody's uuid changes, and a new row has none.
  shares-upsert : (q : Row) (t : Table) → any (shares q) (upsert s seen t) ≡ any (shares q) t
  unfolding upsert
  shares-upsert q [] = ground (arith, eq_iff "" q.komari_uuid, eq_iff q.komari_uuid "")
  shares-upsert q (r ∷ t) = ground (arith, shares-upsert q t)

  upsert-UniqueUuids : (t : Table) → UniqueUuids t → UniqueUuids (upsert s seen t)
  unfolding upsert
  upsert-UniqueUuids [] u = (refl, tt)
  upsert-UniqueUuids (r ∷ t) (fresh, u) = ground (arith, upsert-UniqueUuids t u, shares-upsert r t)

module _ (b : Binding) where
  -- A row of another key and with another uuid shares its uuid with no row after the update.
  shares-bind :
      (q : Row) (t : Table)
      → (q.komari_uuid == b.komari_uuid) ≡ false
      → any (shares q) t ≡ false
      → any (shares q) (update b.identity (set_binding b) t) ≡ false
  unfolding update
  shares-bind q [] n h = refl
  shares-bind q (r ∷ t) n h = ground (
    arith,
    shares-bind q t n,
    eq_iff q.komari_uuid b.komari_uuid,
    eq_iff b.komari_uuid q.komari_uuid,
  )

  update-eq_of_absent :
      (t : Table) → any (has_key b.identity) t ≡ false → update b.identity (set_binding b) t ≡ t
  unfolding update
  update-eq_of_absent [] h = refl
  update-eq_of_absent (r ∷ t) h = ground (arith, update-eq_of_absent t)

  -- Where no row has the key, `taken` sees every row that holds the uuid.
  not-shared :
      (r : Row) (t : Table)
      → taken b t ≡ false
      → any (has_key b.identity) t ≡ false
      → r.komari_uuid ≡ b.komari_uuid
      → any (shares r) t ≡ false
  not-shared r [] h k e = refl
  not-shared r (q ∷ t) h k e = ground (
    arith,
    not-shared r t,
    eq_iff q.komari_uuid b.komari_uuid,
    eq_iff q.komari_uuid r.komari_uuid,
  )

  bind-UniqueUuids :
      (t : Table)
      → taken b t ≡ false
      → UniqueKeys t
      → UniqueUuids t
      → UniqueUuids (update b.identity (set_binding b) t)
  unfolding update
  bind-UniqueUuids [] h k u = tt
  bind-UniqueUuids (r ∷ t) h (fresh, k) (own, u) = elim (Bool-cases (has_key b.identity r)) [
    | inl here ↦
        let absent : any (has_key b.identity) t ≡ false =
          ground (arith, same_iff (key_of r) b.identity) in
        rw (here, update-eq_of_absent t absent)
          (not-shared (set_binding b r) t (ground arith) absent refl, u)
    | inr there ↦
        rw there (shares-bind r t (ground arith) own, bind-UniqueUuids t (ground arith) k u)
  ]

affected-zero :
    (b : Binding) (t : Table) → affected b.identity t ≡ 0 → update b.identity (set_binding b) t ≡ t
unfolding affected update
affected-zero b [] h = refl
affected-zero b (r ∷ t) h = ground (arith, affected-zero b t)

module _ {F : Type 0} where
  -- `Observe` keeps the table's constraints, whatever it returns.
  pub observe-IsTable :
      (fails : Bool) (now : ℕ) (s : Snapshot F) (t : Table)
      → IsTable t
      → IsTable (observe fails now s t).1
  unfolding observe
  observe-IsTable fails now s t v =
      let seen = if eqb s.collected_at 0 then now else s.collected_at in
      ground (arith, upsert-UniqueKeys s seen t v.keys, upsert-UniqueUuids s seen t v.uuids)

-- `Bind` keeps the table's constraints, whatever it returns: a uuid that it writes is held by no
-- other row.
pub bind-IsTable : (fails : Bool) (b : Binding) (t : Table) → IsTable t → IsTable (bind fails b t).1
unfolding bind
bind-IsTable fails b t v = ground (
  arith,
  update-UniqueKeys (set_binding b) (λ r. refl) b.identity t v.keys,
  bind-UniqueUuids b t,
  v.uuids,
  affected-zero b t,
)

module _ (i : Identity) (at : ℕ) where
  shares-set_reported :
      (q : Row) (t : Table) → any (shares q) (update i (set_reported at) t) ≡ any (shares q) t
  unfolding update
  shares-set_reported q [] = refl
  shares-set_reported q (r ∷ t) = ground (arith, shares-set_reported q t)

  set_reported-UniqueUuids :
      (t : Table) → UniqueUuids t → UniqueUuids (update i (set_reported at) t)
  unfolding update
  set_reported-UniqueUuids [] u = tt
  set_reported-UniqueUuids (r ∷ t) (own, u) =
      ground (arith, set_reported-UniqueUuids t u, shares-set_reported r t)

  -- `MarkReported` keeps the constraints.
  pub mark_reported-IsTable :
      (fails : Bool) (t : Table) → IsTable t → IsTable (mark_reported fails i at t).1
  unfolding mark_reported
  mark_reported-IsTable fails t v = ground (
    arith,
    update-UniqueKeys (set_reported at) (λ r. refl) i t v.keys,
    set_reported-UniqueUuids t v.uuids,
  )
