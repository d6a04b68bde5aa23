-- ===== src/Deploy/Deployer/Update/Effects.antt =====
-- What `UpdateDeploy` leaves in the tables.
use csghub_server.Prelude.{
  sym, true, subst, Text, ℕ, Option, none, some, ltb, ◌≡◌, refl, ◌⊎◌, inl, inr, Bool-cases, found,
  arith,
}
use csghub_server.Deploy.Deployer.Update.{
  false, has_gpu, absent, wrong, here', not_updated, bad_replicas, find_resource, find_framework,
  given, checked, with_found, SpaceResource, Db, RuntimeFramework, Deploy, Lookup, first_fields,
  last_fields, update_deploy_fields, DeployUpdateReq, Stores,
}
use csghub_server.Deploy.Store.{Db, Deploy}
use csghub_server.Deploy.Deployer.Update.Fields.{
  Written, Follows, SetsResource, SetsFramework, HasGpus, ResourceIs, FrameworkIs, given-Sets,
  deploy_by_id-put, find_resource-ResourceIs, find_framework-FrameworkIs, gpus_cases,
}

module _ (format : ℕ → Text) (parse : Text → Option Text) (s : Stores) (q : DeployUpdateReq) where
  -- The deploy with the fields of a request.
  abbrev after : Lookup RuntimeFramework → Lookup (SpaceResource × Text) → Deploy → Deploy
  after f r d = last_fields format parse s q (first_fields format parse s q f r d)

  after-Follows :
      (f : Lookup RuntimeFramework) (r : Lookup (SpaceResource × Text)) (d : Deploy)
      → Follows q d (after f r d)
  unfolding first_fields last_fields
  after-Follows f r d = record {
    id = refl;
    status = refl;
    svc_name = refl;
    endpoint = refl;
    owner = (refl, refl);
    of = (refl, refl, refl, refl);
    others = (refl, refl, refl, refl);
    min_replica = given-Sets q.min_replica d.min_replica;
    max_replica = given-Sets q.max_replica d.max_replica;
    git_branch = given-Sets q.revision d.git_branch;
    deploy_name = given-Sets q.deploy_name d.deploy_name;
    env = given-Sets q.env d.env;
    secure_level = given-Sets q.secure_level d.secure_level;
    cluster_id = given-Sets q.cluster_id d.cluster_id;
  }

  abbrev Chosen : Lookup RuntimeFramework → Lookup (SpaceResource × Text) → Deploy → Type 0
  Chosen f r d =
      SetsResource format parse s q.resource_id d (after f r d)
      × SetsFramework format parse s q.runtime_framework_id q.resource_id d (after f r d)

  checked-Written :
      (f : Lookup RuntimeFramework) (r : Lookup (SpaceResource × Text)) (d : Deploy) (db : Db)
      → Chosen f r d
      → Written format parse s q d db
          (checked format parse s q (first_fields format parse s q f r d) db)
  unfolding first_fields last_fields
  checked-Written f r d db chosen =
      elim (Bool-cases
        (ltb (given q.max_replica d.max_replica) (given q.min_replica d.min_replica))) [
          | inl below ↦ rw below (inl (bad_replicas, refl, refl))
          | inr at_least ↦ elim (Bool-cases s.updates) [
            | inr n ↦ rw (at_least, n) (inl (not_updated, refl, refl))
            | inl y ↦
                rw (at_least, y)
                  (inr (
                    refl,
                    (refl, (λ i. deploy_by_id-put (after f r d) db.deploys i)),
                    (ground (arith, at_least)),
                    after-Follows f r d,
                    chosen.0,
                    chosen.1,
                  ))
          ]
        ]

  after-SetsResource :
      (f : Lookup RuntimeFramework) (x : SpaceResource × Text) (d : Deploy)
      → ResourceIs format parse s q.resource_id (here' x)
      → SetsResource format parse s q.resource_id d (after f (here' x) d)
  unfolding first_fields last_fields
  after-SetsResource f x d (i, named, there, parsed) =
      subst (λ o. SetsResource format parse s o d (after f (here' x) d)) (sym named)
        (x.0, there, refl, refl)

  after-keeps_resource :
      (f : Lookup RuntimeFramework) (d : Deploy)
      → q.resource_id ≡ none
      → SetsResource format parse s q.resource_id d (after f absent d)
  unfolding first_fields last_fields
  after-keeps_resource f d none_named =
      subst (λ o. SetsResource format parse s o d (after f absent d)) (sym none_named) (refl, refl)

  after-keeps_framework :
      (r : Lookup (SpaceResource × Text)) (d : Deploy)
      → q.runtime_framework_id ≡ none
      → SetsFramework format parse s q.runtime_framework_id q.resource_id d (after absent r d)
  unfolding first_fields last_fields
  after-keeps_framework r d none_named =
      subst (λ o. SetsFramework format parse s o q.resource_id d (after absent r d))
        (sym none_named) (refl, refl, refl)

  after-SetsFramework :
      (f : RuntimeFramework) (r : Lookup (SpaceResource × Text)) (d : Deploy)
      → FrameworkIs format parse s q.runtime_framework_id (here' f)
      → ((HasGpus format parse s q.resource_id × (has_gpu format parse s r ≡ true))
          ⊎ ((¬ HasGpus format parse s q.resource_id) × (has_gpu format parse s r ≡ false)))
      → SetsFramework format parse s q.runtime_framework_id q.resource_id d (after (here' f) r d)
  unfolding first_fields last_fields
  after-SetsFramework f r d (i, named, there) gpus =
      subst (λ o. SetsFramework format parse s o q.resource_id d (after (here' f) r d)) (sym named)
        (
          f,
          there,
          refl,
          refl,
          (elim gpus [
            | inl (has, e) ↦ inl (has, rw e refl)
            | inr (has_none, e) ↦ inr (has_none, rw e refl)
          ]),
        )

  no_gpus : q.resource_id ≡ none → ¬ HasGpus format parse s q.resource_id
  no_gpus none_named (i, r, gpus, named, there, parsed, some_gpus) = cc (none_named, named)

  -- Whatever the request and the rows found for it: `UpdateDeploy` either ends with an error and
  -- leaves the tables as they were, or it replaces the row of the deploy, if there is one, and nothing
  -- else, and the minimum of replicas is then not above the maximum. Each field that the request gives
  -- has the given value; hardware and sku are those of the resource that it names; the runtime
  -- framework that it names gives its name, its port and its image for GPUs if the request names a
  -- resource with GPUs, and else its image for CPUs. All other fields are the old ones.
  pub update_deploy_fields_lem :
      (d : Deploy) (db : Db)
      → Written format parse s q d db (update_deploy_fields format parse s q d db)
  unfolding update_deploy_fields
  update_deploy_fields_lem d db =
      by_lookup (find_framework format parse s q.runtime_framework_id)
        (find_resource format parse s q.resource_id)
        (find_framework-FrameworkIs format parse s q.runtime_framework_id)
        (find_resource-ResourceIs format parse s q.resource_id)
    where
      by_lookup :
          (f : Lookup RuntimeFramework) (r : Lookup (SpaceResource × Text))
          → FrameworkIs format parse s q.runtime_framework_id f
          → ResourceIs format parse s q.resource_id r
          → Written format parse s q d db (with_found format parse s q f r d db)
      by_lookup (wrong e) r hf hr = inl (e, refl, refl)
      by_lookup absent (wrong e) hf hr = inl (e, refl, refl)
      by_lookup (here' f) (wrong e) hf hr = inl (e, refl, refl)
      by_lookup absent absent hf hr =
          checked-Written absent absent d db
            (after-keeps_resource absent d hr, after-keeps_framework absent d hf)
      by_lookup absent (here' r) hf hr =
          checked-Written absent (here' r) d db
            (after-SetsResource absent r d hr, after-keeps_framework (here' r) d hf)
      by_lookup (here' f) absent hf hr = checked-Written (here' f) absent d db (
        after-keeps_resource (here' f) d hr,
        after-SetsFramework f absent d hf (inr (no_gpus hr, refl)),
      )
      by_lookup (here' f) (here' (r, gpus)) hf hr =
          checked-Written (here' f) (here' (r, gpus)) d db (
            after-SetsResource (here' f) (r, gpus) d hr,
            after-SetsFramework f (here' (r, gpus)) d hf
                (elim (gpus_cases format parse s q.resource_id r gpus hr) [
                  | inl (has, e) ↦ inl (has, rw e refl)
                  | inr (has_none, e) ↦ inr (has_none, rw e refl)
                ]),
          )

  -- A request that names no resource, but a runtime framework, which is found, gives the deploy the
  -- image for CPUs, whatever its hardware is, which stays as it was.
  pub update_deploy_fields-cpu_image :
      (i : ℕ) (f : RuntimeFramework) (d : Deploy) (db : Db)
      → q.runtime_framework_id ≡ some i
      → s.framework i ≡ found f
      → q.resource_id ≡ none
      → ((update_deploy_fields format parse s q d db).0.image_id ≡ f.frame_cpu_image)
        × ((update_deploy_fields format parse s q d db).0.hardware ≡ d.hardware)
  unfolding update_deploy_fields find_framework find_resource first_fields last_fields
  update_deploy_fields-cpu_image i f d db ei ef er =
      rw (ei, ef, er)
        (elim (Bool-cases
          (ltb (given q.max_replica d.max_replica) (given q.min_replica d.min_replica))) [
            | inl below ↦ rw below (refl, refl)
            | inr at_least ↦ elim (Bool-cases s.updates) [
              | inr n ↦ rw (at_least, n) (refl, refl)
              | inl y ↦ rw (at_least, y) (refl, refl)
            ]
          ])
