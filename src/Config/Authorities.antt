-- ===== src/Config/Authorities.antt =====
-- internal/config/config.go: `validateUniqueMetricAuthorities`.
use komari_bridge.Base.{
  eq_iff, ◌≡◌, ◌≢◌, refl, ◌↔◌, arith, String, ◌<>◌, none, some, List, [], ◌∷◌, ◌++◌, if◌then◌else◌,
  ok, err,
}
use komari_bridge.Base.Dict.{Dict, lookup, insert, lookup-insert}
use komari_bridge.Config.{
  ResourceIdentity, LinuxSshConfig, WindowsSshConfig, ProvidersConfig, is_empty,
}
use komari_bridge.Config.Checks.{SshPath, agentless_ssh, linux_ssh, windows_ssh, both_own, Checked}

-- A provider that owns the metrics of a resource.
pub record Authority : Type 0 where
  pub path : SshPath
  pub id : String
  pub to : ResourceIdentity

abbrev pub own_if : Authority → List Authority → List Authority
own_if a rest = if is_empty a.to.source_type then rest else a ∷ rest

unfoldable pub linux_authorities : SshPath → List LinuxSshConfig → List Authority
linux_authorities path [] = []
linux_authorities path (p ∷ ps) =
    own_if (record { path = path; id = p.id; to = p.attach_to }) (linux_authorities path ps)

unfoldable pub windows_authorities : List WindowsSshConfig → List Authority
windows_authorities [] = []
windows_authorities (p ∷ ps) =
    own_if (record { path = windows_ssh; id = p.id; to = p.attach_to }) (windows_authorities ps)

unfoldable pub authorities : ProvidersConfig → List Authority
unfolding linux_authorities windows_authorities
authorities p =
    linux_authorities agentless_ssh p.agentless_ssh
    ++ linux_authorities linux_ssh p.linux_ssh
    ++ windows_authorities p.windows_ssh

unfoldable pub authority_key : Authority → String
authority_key a = a.to.source_type <> "/" <> a.to.source_id <> "/" <> a.to.external_id

-- The loop over the candidates; `owners` is the map of those seen.
unfoldable pub validate_owners : Dict Authority → List Authority → Checked
unfolding lookup insert
validate_owners owners [] = ok tt
validate_owners owners (c ∷ cs) =
    let rest = validate_owners (insert (authority_key c) c owners) cs in
    elim (lookup (authority_key c) owners) [
      | some o ↦ err (both_own o.path o.id c.path c.id (authority_key c))
      | none ↦ rest
    ]

unfoldable pub validate_unique_metric_authorities : ProvidersConfig → Checked
unfolding validate_owners authorities
validate_unique_metric_authorities p = validate_owners [] (authorities p)

-- No key stands twice.
abbrev pub IsFresh : String → List Authority → Type 0
IsFresh k [] = Unit
IsFresh k (c ∷ cs) = (authority_key c ≢ k) × IsFresh k cs

abbrev pub AreUnique : List Authority → Type 0
AreUnique [] = Unit
AreUnique (c ∷ cs) = IsFresh (authority_key c) cs × AreUnique cs

-- None of the candidates has an owner yet.
abbrev AllFree : Dict Authority → List Authority → Type 0
AllFree owners [] = Unit
AllFree owners (c ∷ cs) = (lookup (authority_key c) owners ≡ none) × AllFree owners cs

AllFree-insert :
    (k : String) (a : Authority) (owners : Dict Authority) (cs : List Authority)
    → AllFree (insert k a owners) cs ↔ (IsFresh k cs × AllFree owners cs)
AllFree-insert k a owners [] = (λ _. (tt, tt), λ _. tt)
AllFree-insert k a owners (c ∷ cs) = ground (
  arith,
  AllFree-insert k a owners cs,
  lookup-insert k (authority_key c) a owners,
  eq_iff k (authority_key c),
)

validate_owners_iff :
    (owners : Dict Authority) (cs : List Authority)
    → (validate_owners owners cs ≡ ok tt) ↔ (AllFree owners cs × AreUnique cs)
unfolding validate_owners
validate_owners_iff owners [] = (λ _. (tt, tt), λ _. refl)
validate_owners_iff owners (c ∷ cs) = ground (
  arith,
  validate_owners_iff (insert (authority_key c) c owners) cs,
  AllFree-insert (authority_key c) c owners cs,
)

AllFree-empty : (cs : List Authority) → AllFree [] cs
unfolding lookup
AllFree-empty [] = tt
AllFree-empty (c ∷ cs) = (refl, AllFree-empty cs)

-- The check passes exactly when no two of the providers that own the metrics of a resource have the
-- same key of it.
pub validate_unique_metric_authorities_iff :
    (p : ProvidersConfig)
    → (validate_unique_metric_authorities p ≡ ok tt) ↔ AreUnique (authorities p)
unfolding validate_unique_metric_authorities
validate_unique_metric_authorities_iff p =
    ground (arith, validate_owners_iff [] (authorities p), AllFree-empty (authorities p))
