-- ===== src/Server/Policy/Reload.antt =====
-- The caches of ml_server/policy/loader.py.
use inha_rada.Common.{◌+◌, ◌≡◌, refl, sym, subst, ◌⊎◌, inl, inr, Option, none, some}
use inha_rada.Server.Counters.{Counters, policy_reload_failed, increment}
use inha_rada.Server.Policy.Yaml.{Value, Problem, Result, ok, raised}
use inha_rada.Server.Policy.Sections.{Texts}
use inha_rada.Server.Policy.Loader.{ScoringPolicy, load_scoring_policy, AllowList, load_allowlist}

-- The contents of the two files, `none` for no file.
pub record Files : Type 0 where
  pub scoring_policy : Option Value
  pub allowlist : Option Value

-- The two module variables and the counters.
pub record Caches : Type 0 where
  pub scoring : Option ScoringPolicy
  pub allow : Option AllowList
  pub counters : Counters

module _ (tx : Texts) (files : Files) where
  -- `load_scoring_policy` and `load_allowlist` with their caches: only a success is stored.
  unfoldable pub load_scoring : Caches → Result ScoringPolicy × Caches
  unfolding load_scoring_policy
  load_scoring c = elim (load_scoring_policy tx files.scoring_policy) [
    | ok p ↦ (ok p, record c { scoring = some p })
    | raised e ↦ (raised e, c)
  ]

  unfoldable pub load_allow : Caches → Result AllowList × Caches
  unfolding load_allowlist
  load_allow c = elim (load_allowlist tx files.allowlist) [
    | ok a ↦ (ok a, record c { allow = some a })
    | raised e ↦ (raised e, c)
  ]

  unfoldable pub get_scoring_policy : Caches → Result ScoringPolicy × Caches
  unfolding load_scoring
  get_scoring_policy c = elim c.scoring [ none ↦ load_scoring c | some p ↦ (ok p, c) ]

  unfoldable pub get_allowlist : Caches → Result AllowList × Caches
  unfolding load_allow
  get_allowlist c = elim c.allow [ none ↦ load_allow c | some a ↦ (ok a, c) ]

  unfoldable pub failed : Problem → Caches → Result (Unit {0}) × Caches
  unfolding increment
  failed e c = (raised e, record c { counters = increment c.counters policy_reload_failed 1 })

  -- What follows the second and the first load.
  unfoldable pub after_allow : Result AllowList × Caches → Result (Unit {0}) × Caches
  unfolding failed
  after_allow (ok a, c) = (ok tt, c)
  after_allow (raised e, c) = failed e c

  unfoldable pub after_scoring : Result ScoringPolicy × Caches → Result (Unit {0}) × Caches
  unfolding load_allow after_allow failed
  after_scoring (ok p, c) = after_allow (load_allow c)
  after_scoring (raised e, c) = failed e c

  unfoldable pub reload_policies : Caches → Result (Unit {0}) × Caches
  unfolding load_scoring after_scoring
  reload_policies c = after_scoring (load_scoring (record c { scoring = none; allow = none }))

  -- Both files load, and the caches and counters are those.
  pub record Reloaded (before after : Caches) : Type 0 where
    pub policy : ScoringPolicy
    pub lists : AllowList
    pub policy_loads : load_scoring_policy tx files.scoring_policy ≡ ok policy
    pub lists_load : load_allowlist tx files.allowlist ≡ ok lists
    pub scoring_is : after.scoring ≡ some policy
    pub allow_is : after.allow ≡ some lists
    pub counters_are : after.counters ≡ before.counters

Result-cases {ℓ} :
    {A : Type ℓ} (r : Result A) → ((a : A) × (r ≡ ok a)) ⊎ ((e : Problem) × (r ≡ raised e))
Result-cases (ok a) = inl (a, refl)
Result-cases (raised e) = inr (e, refl)

module _ (tx : Texts) (files : Files) where
  -- The failure was counted, the lists are gone, and the policy is that of the file, if that loads.
  pub record NotReloaded (before after : Caches) : Type 0 where
    pub scoring_is :
        (after.scoring ≡ none)
        ⊎ ((p : ScoringPolicy) × (after.scoring ≡ some p)
            × (load_scoring_policy tx files.scoring_policy ≡ ok p))
    pub allow_is : after.allow ≡ none
    pub counted :
        after.counters.policy_reload_failed_count ≡ before.counters.policy_reload_failed_count + 1

  abbrev pub Outcome : Caches → Result (Unit {0}) × Caches → Type 0
  Outcome before (ok _, after) = Reloaded tx files before after
  Outcome before (raised _, after) = NotReloaded before after

  load_scoring_lem :
      (c : Caches) (r : Result ScoringPolicy)
      → load_scoring_policy tx files.scoring_policy ≡ r
      → load_scoring tx files c
        ≡ (elim r [ ok p ↦ (ok p, record c { scoring = some p }) | raised e ↦ (raised e, c) ])
  unfolding load_scoring
  load_scoring_lem c r h = rw (load_scoring, h) refl

  load_allow_lem :
      (c : Caches) (r : Result AllowList)
      → load_allowlist tx files.allowlist ≡ r
      → load_allow tx files c
        ≡ (elim r [ ok a ↦ (ok a, record c { allow = some a }) | raised e ↦ (raised e, c) ])
  unfolding load_allow
  load_allow_lem c r h = rw (load_allow, h) refl

  -- A reload either succeeds, and both caches are what the files hold and nothing is counted; or
  -- it raises, the failure is counted once, no lists are cached, and a policy is cached only if
  -- its file loads.
  pub reload_policies-Outcome : (c : Caches) → Outcome c (reload_policies tx files c)
  unfolding reload_policies after_scoring after_allow failed increment
  reload_policies-Outcome c =
      let c' = record c { scoring = none; allow = none } in
      elim (Result-cases (load_scoring_policy tx files.scoring_policy)) [
        | inr (e, bad) ↦
            subst (λ x. Outcome c (after_scoring tx files x)) (sym (load_scoring_lem c' _ bad))
              (record { scoring_is = inl refl; allow_is = refl; counted = refl })
        | inl (p, loads) ↦ elim (Result-cases (load_allowlist tx files.allowlist)) [
          | inr (e, bad) ↦
              subst (λ x. Outcome c (after_scoring tx files x)) (sym (load_scoring_lem c' _ loads))
                (subst (λ x. Outcome c (after_allow tx files x)) (sym (load_allow_lem _ _ bad))
                  (record { scoring_is = inr (p, refl, loads); allow_is = refl; counted = refl }))
          | inl (a, lists) ↦
              subst (λ x. Outcome c (after_scoring tx files x)) (sym (load_scoring_lem c' _ loads))
                (subst (λ x. Outcome c (after_allow tx files x)) (sym (load_allow_lem _ _ lists))
                  (record {
                    policy = p;
                    lists = a;
                    policy_loads = loads;
                    lists_load = lists;
                    scoring_is = refl;
                    allow_is = refl;
                    counters_are = refl;
                  }))
        ]
      ]
