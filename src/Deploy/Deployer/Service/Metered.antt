-- ===== src/Deploy/Deployer/Service/Metered.antt =====
-- Which services are shown as running, and which are metered.
use csghub_server.Prelude.{
  int_eq_iff, sym, Text, ℕ, pos, Bool, true, false, Option, some, List, if◌then◌else◌, ◌==◌, ◌≡◌,
  refl, ◌≢◌, Fetched, found, no_rows, failed, is_empty, lookup, inl, inr, Bool-cases, Option-cases,
  int_eq, arith, ==_iff,
}
use csghub_server.Deploy.Deployer.Service.{
  metered, shown_of, get_deploy_by_id, scene_unknow, get_valid_scene_type, DeployRepo, Deploy,
  StatusResponse, service_status, start_accounting_request_meter,
}
use csghub_server.Metering.Event.{get_unit_string, MeteringEvent, row_of, unit_minute}
use csghub_server.Deploy.Store.{get_deploy_by_id, Db, Deploy}
use csghub_server.Deploy.Deployer.{Db, DeployRepo}
use csghub_server.Deploy.Deployer.Service.Status

-- The row of the deploy names a service that the cache lists.
abbrev pub Listed : List (Text × StatusResponse) → Deploy → Type 0
Listed cache d = (r : StatusResponse) × (lookup d.svc_name cache ≡ some r)

not_running : (st : ℕ) → (if st == Status.running then Status.stopped else st) ≢ Status.running
not_running st h = ground arith

shown-Listed :
    (dr : DeployRepo) (answer : Option StatusResponse) (cache : List (Text × StatusResponse))
    (x : Fetched Deploy)
    → (shown_of dr answer cache x).code ≡ Status.running
    → (d : Deploy) × (x ≡ found d) × Listed cache d
shown-Listed dr answer cache no_rows h = absurd (ground (arith, h))
shown-Listed dr answer cache failed h = absurd (ground (arith, h))
shown-Listed dr answer cache (found d) h = elim (Option-cases (lookup d.svc_name cache)) [
  | inl no' ↦ absurd (not_running d.status (rw no' at h))
  | inr (r, e) ↦ (d, refl, (r, e))
]

-- If `Status` shows a service as running, the deploy is stored and its service is among those that
-- the runner listed last: a deploy whose row alone says that it is running is shown as stopped.
pub service_status-Listed :
    (works : Bool) (dr : DeployRepo) (answer : Option StatusResponse)
    (cache : List (Text × StatusResponse)) (db : Db)
    → (service_status works dr answer cache db).code ≡ Status.running
    → (d : Deploy) × (get_deploy_by_id dr.deploy_id db ≡ found d) × Listed cache d
unfolding service_status
service_status-Listed true dr answer cache db h =
    shown-Listed dr answer cache (get_deploy_by_id dr.deploy_id db) h
service_status-Listed false dr answer cache db h = absurd (ground (arith, h))

unit_of_scene : (t : ℕ) → get_unit_string (get_valid_scene_type t) ≡ unit_minute
unit_of_scene t = ground arith

-- The deployer meters running services only, whose resource is known and whose kind of deploy has a
-- scene; what the accounting books of it is the interval in minutes, for the user, the resource and
-- the service.
pub start_accounting_request_meter_lem :
    (interval : ℕ) (uuid : Text) (now : ℕ) (resources : List (Text × Text)) (r : StatusResponse)
    (e : MeteringEvent)
    → start_accounting_request_meter interval uuid now resources r ≡ some e
    → (r.code ≡ Status.running)
      × ((name : Text) × (lookup r.deploy_sku resources ≡ some name)
          × ((row_of e).resource_name ≡ name))
      × (get_valid_scene_type r.deploy_type ≢ scene_unknow)
      × ((row_of e).value ≡ pos interval)
      × ((row_of e).sku_unit_type ≡ unit_minute)
      × ((row_of e).user_uuid ≡ r.user_id)
      × ((row_of e).customer_id ≡ r.service_name)
unfolding start_accounting_request_meter row_of
start_accounting_request_meter_lem interval uuid now resources r e h =
    elim (Bool-cases (r.code == Status.running)) [
      | inr no' ↦ absurd (cc (rw no' at h))
      | inl on ↦ elim (Bool-cases (is_empty r.deploy_sku)) [
        | inl no' ↦ absurd (cc (rw (on, no') at h))
        | inr sku ↦ elim (Option-cases (lookup r.deploy_sku resources)) [
          | inl no' ↦ absurd (cc (rw (on, sku, no') at h))
          | inr (name, en) ↦
              elim (Bool-cases (int_eq (get_valid_scene_type r.deploy_type) scene_unknow)) [
                | inl no' ↦ absurd (cc (rw (on, sku, en, no') at h))
                | inr sc ↦
                    let eq : metered interval uuid now r name ≡ e =
                      cc (rw (on, sku, en, sc) at h) in
                    rw (sym eq) (
                      (==_iff r.code Status.running).0 on,
                      (name, en, refl),
                      (λ q. ground (
                        arith,
                        sc,
                        (int_eq_iff (get_valid_scene_type r.deploy_type) scene_unknow).1 q,
                      )),
                      refl,
                      unit_of_scene r.deploy_type,
                      refl,
                      refl,
                    )
              ]
        ]
      ]
    ]
