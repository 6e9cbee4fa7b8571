-- ===== src/Manager.antt =====
-- The manager of controller-runtime as the program's start sees it: what it is told, and the calls
-- made of it. What it does is a parameter.
pub mod Calls
use ansible_operator.Base.{ℕ, String, Bool, true, false, List, [], ◌∷◌, ◌++◌, Result, if◌then◌else◌}
use Prim.Native.Nat.{compare, Ordering}
use ansible_operator.Api.{ObjectKey, ObjectMeta, object_key, AnsibleGroup, AnsibleReconcileJob}
use ansible_operator.Kube.{Platform}

-- the types of objects that controllers are told of
pub data Kind : Type 0 where
  ansible_host ansible_group ansible_playbook ansible_reconcile_job : Kind
  config_map secret cron_job job : Kind

abbrev ordinal : Kind → ℕ
ordinal ansible_host = 0
ordinal ansible_group = 1
ordinal ansible_playbook = 2
ordinal ansible_reconcile_job = 3
ordinal config_map = 4
ordinal secret = 5
ordinal cron_job = 6
ordinal job = 7

abbrev same_kind : Kind → Kind → Bool
same_kind a b = elim (compare (ordinal a) (ordinal b)) [ Ordering.eq ↦ true | _ ↦ false ]

-- `GetFieldIndexer().IndexField`: a field name and the index function
pub data Index : Type 0 where
  group_index : String → (AnsibleGroup → List String) → Index
  reconcile_job_index : String → (AnsibleReconcileJob → List String) → Index

-- `tls.Config`, with the field that is set
pub record TlsConfig : Type 0 where
  pub next_protos : List String

-- `metricsserver.Options`
pub record MetricsServerOptions : Type 0 where
  pub bind_address : String
  pub secure_serving : Bool
  pub tls_opts : List (TlsConfig → TlsConfig)
  -- whether `FilterProvider` is `filters.WithAuthenticationAndAuthorization`, or nil
  pub authenticates : Bool
  pub cert_dir : String
  pub cert_name : String
  pub key_name : String

-- `webhook.Options`
pub record WebhookServerOptions : Type 0 where
  pub webhook_tls_opts : List (TlsConfig → TlsConfig)
  pub webhook_cert_dir : String
  pub webhook_cert_name : String
  pub webhook_key_name : String

-- `ctrl.Options`
pub record ManagerOptions : Type 0 where
  pub metrics : MetricsServerOptions
  pub webhook_server : WebhookServerOptions
  pub health_probe_bind_address : String
  pub leader_election : Bool
  pub leader_election_id : String

module _ (P : Platform) where
  -- `handler.MapFunc`, which reads through the manager's client
  abbrev pub Mapper : Type 0
  Mapper = ObjectMeta → P.State → List ObjectKey

  -- What the builder of a controller is given before `Complete`. No limit on the reconciles that run
  -- at once is 0.
  pub record Registration : Type 0 where
    pub named : String
    pub reconciles : Kind
    pub owns : List Kind
    pub watches : List (Kind × Mapper)
    pub max_concurrent_reconciles : ℕ

  -- The requests of the map functions that watch objects of this kind.
  abbrev mapped : List (Kind × Mapper) → Kind → ObjectMeta → P.State → List ObjectKey
  mapped [] kind object s = []
  mapped ((watched, mapper) ∷ watches) kind object s =
      let rest = mapped watches kind object s in
      if same_kind watched kind then mapper object s ++ rest else rest

  -- The requests that a change of an object causes, for a kind that the controller does not own: the
  -- object itself, if it is of the kind that the controller reconciles (`For`), and those of the map
  -- functions (`Watches`). For a kind that it owns (`Owns`) the owner would be added.
  abbrev pub requests : Registration → Kind → ObjectMeta → P.State → List ObjectKey
  requests controller kind object s =
      let others = mapped controller.watches kind object s in
      if same_kind controller.reconciles kind then object_key object ∷ others else others

-- The calls, over an unknown state.
pub record Manager (P : Platform) : Type 1 where
  pub State : Type 0
  pub add_to_scheme : String → State → Result (Unit {0}) × State
  -- `GetConfigOrDie` and `NewManager`
  pub get_config : State → Result (Unit {0}) × State
  pub new_manager : ManagerOptions → State → Result (Unit {0}) × State
  pub index_field : Index → State → Result (Unit {0}) × State
  pub complete : Registration P → State → Result (Unit {0}) × State
  -- `AddHealthzCheck` and `AddReadyzCheck` with `healthz.Ping`
  pub add_healthz_check : String → State → Result (Unit {0}) × State
  pub add_readyz_check : String → State → Result (Unit {0}) × State
  -- returns when the manager stops
  pub start : State → Result (Unit {0}) × State
