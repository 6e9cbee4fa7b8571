-- ===== src/Manager/Calls.antt =====
-- The calls that have been made of the manager, in a record beside its state.
use ansible_operator.Base.{String, List, ◌∷◌, Result, Exec}
use ansible_operator.Kube.{Platform}
use ansible_operator.Manager.{Manager, Index, ManagerOptions, Registration}

module _ (P : Platform) where
  pub data Call : Type 0 where
    add_to_scheme : String → Call
    get_config : Call
    new_manager : ManagerOptions → Call
    index_field : Index → Call
    complete : Registration P → Call
    add_healthz_check add_readyz_check : String → Call
    start : Call

module _ {P : Platform} (M : Manager P) where
  pub record Startup : Type 0 where
    pub manager : M.State
    -- the latest call first
    pub calls : List (Call P)

  -- A call is made whatever comes of it.
  abbrev pub perform : Call P → M.State → Result (Unit {0}) × M.State
  perform (Call.add_to_scheme group) = M.add_to_scheme group
  perform Call.get_config = M.get_config
  perform (Call.new_manager options) = M.new_manager options
  perform (Call.index_field index) = M.index_field index
  perform (Call.complete registration) = M.complete registration
  perform (Call.add_healthz_check name) = M.add_healthz_check name
  perform (Call.add_readyz_check name) = M.add_readyz_check name
  perform Call.start = M.start

  abbrev pub invoke : Call P → Exec Startup (Unit {0})
  invoke call s =
      let (r, manager) = perform call s.manager in
      (r, record { manager = manager; calls = call ∷ s.calls })
