-- ===== src/Bridge/Topology/Site.antt =====
-- The walk from a resource to its site, and its fuel.
use komari_bridge.Base.{
  ap, ℕ, zero, suc, ◌+◌, ◌≤◌, ◌<◌, ◌≡◌, refl, String, ◌==◌, eq_iff, Bool, true, false, not, ◌&&◌,
  any, find, is_some, ◌⊎◌, Bool-cases, inl, inr, get_or, List, [], ◌∷◌, All, length, arith,
  if◌then◌else◌,
}
use komari_bridge.Base.Dict.{StringSet, member}
use komari_bridge.Model.{Snapshot}
use komari_bridge.Bridge.Topology.{with_external_id, pick_parent, site_from, topology_site}

module _ {F : Type 0} where
  abbrev external : Snapshot F → String
  external s = s.identity.external_id

  List-cases :
      (xs : List (Snapshot F))
      → (xs ≡ []) ⊎ ((x : Snapshot F) × (rest : List (Snapshot F)) × (xs ≡ x ∷ rest))
  List-cases [] = inl refl
  List-cases (x ∷ rest) = inr (x, rest, refl)

  -- How many of the snapshots have an external id that was not visited.
  abbrev unvisited : StringSet → List (Snapshot F) → ℕ
  unvisited visited [] = 0
  unvisited visited (c ∷ cs) = (if member (external c) visited then 0 else 1) + unvisited visited cs

  abbrev has_id : String → List (Snapshot F) → Bool
  has_id id = any (λ c. external c == id)

  unvisited_le : (visited : StringSet) (cs : List (Snapshot F)) → unvisited visited cs ≤ length cs
  unvisited_le visited [] = omega arith
  unvisited_le visited (c ∷ cs) = ground (arith, unvisited_le visited cs)

  unvisited-∷_le :
      (id : String) (visited : StringSet) (cs : List (Snapshot F))
      → unvisited (id ∷ visited) cs ≤ unvisited visited cs
  unfolding member
  unvisited-∷_le id visited [] = omega arith
  unvisited-∷_le id visited (c ∷ cs) = ground (arith, unvisited-∷_le id visited cs)

  -- A visit of a new id leaves fewer.
  unvisited-∷_lt :
      (id : String) (visited : StringSet) (cs : List (Snapshot F))
      → has_id id cs ≡ true
      → member id visited ≡ false
      → unvisited (id ∷ visited) cs < unvisited visited cs
  unfolding member
  unvisited-∷_lt id visited [] h new = cc
  unvisited-∷_lt id visited (c ∷ cs) h new = elim (Bool-cases (external c == id)) [
    | inl e ↦
        let same : external c ≡ id = (eq_iff (external c) id).0 e in
        ground (
          arith,
          unvisited-∷_le id visited cs,
          same,
          eq_iff (external c) id,
          eq_iff id (external c),
          ap (λ k. member k visited) same,
        )
    | inr e ↦ ground (arith, unvisited-∷_lt id visited cs (ground arith) new)
  ]

  with_external_id-All :
      (id : String) (all : List (Snapshot F)) → All (λ s. external s ≡ id) (with_external_id id all)
  with_external_id-All id [] = tt
  with_external_id-All id (s ∷ all) =
      ground (arith, with_external_id-All id all, eq_iff (external s) id)

  All-candidates :
      (id : String) (all candidates : List (Snapshot F))
      → with_external_id id all ≡ candidates
      → All (λ s. external s ≡ id) candidates
  All-candidates id all candidates e = rw (← e) (with_external_id-All id all)

  has_id-with_external_id :
      (id : String) (all : List (Snapshot F)) (p : Snapshot F) (others : List (Snapshot F))
      → with_external_id id all ≡ p ∷ others
      → has_id id all ≡ true
  has_id-with_external_id id [] p others h = cc
  has_id-with_external_id id (s ∷ all) p others h =
      ground (arith, has_id-with_external_id id all p others)

  external-find :
      (id : String) (test : Snapshot F → Bool) (first : Snapshot F) (ss : List (Snapshot F))
      → external first ≡ id
      → All (λ s. external s ≡ id) ss
      → external (get_or (find test ss) first) ≡ id
  external-find id test first [] p h = p
  external-find id test first (s ∷ ss) p (q, h) = ground (arith, external-find id test first ss p h)

  module _ (all : List (Snapshot F)) (group : String) where
    -- The parents that the walk goes to are among the snapshots.
    external-pick_parent :
        (id : String) (p : Snapshot F) (others : List (Snapshot F))
        → with_external_id id all ≡ p ∷ others
        → has_id (external (pick_parent group p (p ∷ others))) all ≡ true
    external-pick_parent id p others e =
        let same : All (λ s. external s ≡ id) (p ∷ others) = All-candidates id all (p ∷ others) e in
        rw
          (external-find id (λ c. not (group == "") && (c.group == group)) p (p ∷ others) same.0
            same)
          (has_id-with_external_id id all p others e)

    -- One round, if the rest of the walk ends.
    is_some-round :
        (fuel : ℕ) (visited : StringSet) (current : Snapshot F)
        → (member (external current) visited ≡ false
            → (next : Snapshot F) → has_id (external next) all ≡ true
            → is_some (site_from all group fuel (external current ∷ visited) next) ≡ true)
        → is_some (site_from all group (suc fuel) visited current) ≡ true
    unfolding site_from
    is_some-round fuel visited current rest =
        elim (List-cases (with_external_id current.parent_external_id all)) [
          | inl e ↦ rw (is_some, e) refl
          | inr (p, others, e) ↦
              let known = external-pick_parent current.parent_external_id p others e in
              elim (Bool-cases (member (external current) visited)) [
                | inl seen ↦ rw (is_some, e) (ground (arith, seen))
                | inr new ↦
                    rw (is_some, e)
                      (ground (arith, new, rest new (pick_parent group p (p ∷ others)) known))
              ]
        ]

    -- The walk from a snapshot ends, if fuel is left for each id that was not visited.
    is_some-site_from :
        (fuel : ℕ) (visited : StringSet) (current : Snapshot F)
        → has_id (external current) all ≡ true
        → unvisited visited all < fuel
        → is_some (site_from all group fuel visited current) ≡ true
    is_some-site_from zero visited current known enough = ground arith
    is_some-site_from (suc fuel) visited current known enough =
        is_some-round fuel visited current (λ new next next_known.
          let fewer = unvisited-∷_lt (external current) visited all known new in
          is_some-site_from fuel (external current ∷ visited) next next_known (omega arith))

  -- The walk finds a site for every snapshot within its fuel, so the source's loop ends: also where
  -- parents form a circle, share an external id, or are not among the snapshots.
  pub is_some-topology_site :
      (all : List (Snapshot F)) (s : Snapshot F) → is_some (topology_site all s) ≡ true
  unfolding topology_site
  is_some-topology_site all s =
      is_some-round all s.group (suc (length all)) [] s (λ new next next_known.
        let first = unvisited_le (external s ∷ []) all in
        is_some-site_from all s.group (suc (length all)) (external s ∷ []) next next_known
          (omega arith))
