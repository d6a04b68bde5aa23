-- ===== src/Repos/Deploys/Shown.antt =====
-- component/repo.go: what a user is shown of deploys. `join` is `url.JoinPath` of the base address, and
-- `zone` what the store of the clusters says of one.
use csghub_server.Prelude.{
  Text, is_empty, codes, ℕ, not, ◌&&◌, if◌then◌else◌, [], ◌∷◌, ◌++◌, has_prefix, ◌==◌,
}
use csghub_server.Deploy.Store.{Deploy}
use csghub_server.Repos.Store.{Outcome, ok, err}
use csghub_server.Deploy.Status

-- `deployStatusCodeToString`
unfoldable pub status_text : ℕ → Text
status_text c =
    if c == 10
    then codes "Stopped"
    else if c == 11
    then codes "Building"
    else if c == 12
    then codes "BuildingFailed"
    else if c == 13
    then codes "Deploying"
    else if c == 20
    then codes "Deploying"
    else if c == 21
    then codes "DeployFailed"
    else if c == 22
    then codes "Deploying"
    else if c == 23
    then codes "Running"
    else if c == 24
    then codes "RuntimeError"
    else if c == 25
    then codes "Sleeping"
    else if c == 26
    then codes "Stopped"
    else if c == 27
    then codes "Deleted"
    else codes "Stopped"

-- `strings.Replace(s, old, "", 1)`
abbrev pub cut : Text → Text → Text
cut [] s = s
cut (o ∷ os) [] = []
cut (o ∷ os) (c ∷ s) = cut os s

unfoldable pub without_first : Text → Text → Text
without_first old [] = []
without_first old (c ∷ s) =
    let rest = without_first old s in if has_prefix (c ∷ s) old then cut old (c ∷ s) else c ∷ rest

-- The zone and the provider of a cluster; a cluster that is not found has none.
pub record Cluster : Type 0 where
  pub zone : Text
  pub provider : Text

abbrev pub or_nowhere : Outcome Cluster → Cluster
or_nowhere (ok c) = c
or_nowhere (err e) = record { zone = []; provider = [] }

module _ (join : Text → Text → Text) (public_root_domain server_base_url : Text)
    (zone : Text → Outcome Cluster) where
  abbrev pub region_domain : Cluster → Text
  region_domain c =
      if not (is_empty c.zone) && not (is_empty c.provider)
      then b'.' ∷ (c.zone ++ (b'.' ∷ c.provider))
      else []

  abbrev pub address : Deploy → Cluster → Text
  address d c =
      if is_empty public_root_domain
      then without_first (codes "https://")
          (without_first (codes "http://") (join server_base_url d.svc_name))
      else d.svc_name ++ region_domain c ++ (b'.' ∷ public_root_domain)

  -- `generateEndpoint`: the address of a running service, and the provider.
  unfoldable pub generate_endpoint : Deploy → Text × Text
  generate_endpoint d =
      let c = or_nowhere (zone d.cluster_id) in
      (
        if not (is_empty d.svc_name) && d.status == Status.running then address d c else [],
        c.provider,
      )
