-- ===== src/Maintenance/Lock.antt =====
-- The lock classes of openstack_controller/maintenance.py: their methods on the API server's state.
use openstack_controller.Common.{
  leb, ◌==◌, if◌then◌else◌, length, select, all, find, after_char, concat, ℕ, String, Bool, true,
  false, not, ◌&&◌, Option, none, some, List, [], ◌∷◌, ◌++◌, nat_eq, string_eq,
}
use mathlib.Core.Option
use openstack_controller.Kube.Node.{
  Node, NodeRole, compute, gateway, controller, RoleLabels, has_role, roles,
}
use openstack_controller.Maintenance.Cluster.{
  Cluster, Lock, Kind, node_workload, cluster_workload, LockState, LockInnerState, Message,
  temporary, not_found, key_error, concurrency_exceeded, locks, with_locks, find_lock, update_named,
  remove_named, Exec, pure, raise, gets, modify, ◌>>=◌, ◌>>◌,
}

-- What the deployment configures.
pub record Settings : Type 0 where
  pub role_labels : RoleLabels
  pub nwl_parallel_max_gateway : ℕ
  pub nwl_parallel_max_compute : ℕ
  -- OSCTL_CLUSTER_RELEASE, empty where the deployment sets none
  pub cluster_release : String

abbrev pub workload : String
workload = "openstack"

-- `f"{cls.workload}-{name}"` of `get_by_node` and `get_by_osdpl`.
unfoldable pub lock_name : String → String
lock_name name = concat "openstack-" name

abbrev bare_node : String → Bool → Node
bare_node name unschedulable = record {
  name = name;
  labels = [];
  annotations = [];
  unschedulable = unschedulable;
  conditions = [];
}

-- The dummy that stands for an absent node: the latest known annotations and spec, no labels.
abbrev remembered : String → Option Node → Node
remembered name none = bare_node name false
remembered name (some n) = record (bare_node name n.unschedulable) { annotations = n.annotations }

abbrev original_of : Option Lock → Option Node
original_of none = none
original_of (some l) = l.original_node

abbrev pub find_node : String → Cluster → Option Node
find_node name c = find (λ n. n.name == name) c.nodes

abbrev pub node_exists : String → Cluster → Bool
node_exists name c = elim (find_node name c) [ none ↦ false | some n ↦ true ]

unfoldable pub safe_get_node : String → Cluster → Node
safe_get_node name c = elim (find_node name c) [
  | some n ↦ n
  | none ↦ remembered name (original_of (find_lock node_workload (lock_name name) c))
]

unfoldable pub get_max_parallel_by_role : Settings → NodeRole → ℕ
get_max_parallel_by_role cfg controller = 1
get_max_parallel_by_role cfg gateway = cfg.nwl_parallel_max_gateway
get_max_parallel_by_role cfg compute = cfg.nwl_parallel_max_compute

abbrev pub lock_exists : Kind → String → Cluster → Bool
lock_exists k n c = elim (find_lock k n c) [ none ↦ false | some l ↦ true ]

-- `self.reload()`: the object as the API server has it, or its 404.
unfoldable pub reload : Kind → String → Exec Lock
reload k n c = elim (find_lock k n c) [ none ↦ raise not_found c | some l ↦ pure l c ]

-- `self.patch(...)`
unfoldable pub patch : Kind → String → (Lock → Lock) → Exec (Unit {0})
patch k n f = do reload k n; modify (λ c. with_locks k c (update_named n f (locks k c)))

unfoldable pub set_state : Kind → String → LockState → Exec (Unit {0})
set_state k n s = patch k n (λ l. record l { state = some s })

unfoldable pub set_release : Kind → String → String → Exec (Unit {0})
set_release k n r = patch k n (λ l. record l { release = some r })

unfoldable pub set_inner_state : Kind → String → LockInnerState → Exec (Unit {0})
set_inner_state k n s = patch k n (λ l. record l { inner_state = some s })

unfoldable pub set_error_message : Kind → String → Message → Exec (Unit {0})
set_error_message k n m = do
  now ← gets (λ c. c.clock)
  patch k n (λ l. record l { error_message = some (now, m) })

unfoldable pub unset_error_message : Kind → String → Exec (Unit {0})
unset_error_message k n = patch k n (λ l. record l { error_message = none })

abbrev pub state_of : Option LockState → Exec LockState
state_of none = raise key_error
state_of (some s) = pure s

abbrev is_active_state : LockState → Bool
is_active_state LockState.active = true
is_active_state _ = false

abbrev pub is_inner_active : Option LockInnerState → Bool
is_inner_active (some LockInnerState.active) = true
is_inner_active _ = false

-- An object whose status was never set has no `status.state` to read.
unfoldable pub is_active : Kind → String → Exec Bool
is_active k n = do l ← reload k n; s ← state_of l.state; pure (is_active_state s)

unfoldable pub is_maintenance : Kind → String → Exec Bool
is_maintenance k n = do l ← reload k n; pure (is_inner_active l.inner_state)

-- The lock has a status once `set_state` has run.
abbrev has_status : Lock → Bool
has_status l = elim l.state [ some s ↦ true | none ↦ false ]

unfoldable pub get_release : Kind → String → Exec (Option String)
get_release k n = do l ← reload k n; if has_status l then pure l.release else raise key_error

-- `NodeWorkloadLock.get_all`
unfoldable pub get_all : Cluster → List Lock
get_all c = select (λ l. l.controller_name == workload) c.node_locks

-- The inner and the outer test of `maintenance_locks`, for one role.
unfoldable pub holds_role : Settings → Cluster → NodeRole → Lock → Bool
holds_role cfg c role l =
    is_inner_active l.inner_state
    && node_exists l.node_name c
    && has_role cfg.role_labels (safe_get_node l.node_name c) role

unfoldable pub maintenance_locks : Settings → Cluster → NodeRole → List Lock
maintenance_locks cfg c role = select (holds_role cfg c role) (get_all c)

-- No role may have as many locks in maintenance as its limit.
unfoldable pub can_handle_nmr : Settings → Cluster → Bool
can_handle_nmr cfg c =
    all
      (λ role.
        not (leb (get_max_parallel_by_role cfg role) (length (maintenance_locks cfg c role))))
      roles

-- The refusal of `acquire_internal_lock`.
unfoldable pub defer_nmr : String → Lock → Exec (Unit {0})
defer_nmr n l = do
  set_error_message node_workload n (concurrency_exceeded l.node_name)
  raise (temporary (concurrency_exceeded l.node_name))

-- `with MAINTENANCE_LOCK` makes this one step for the other handlers.
unfoldable pub acquire_internal_lock : Settings → String → Exec (Unit {0})
acquire_internal_lock cfg n = do
  held ← is_maintenance node_workload n
  room ← gets (can_handle_nmr cfg)
  l ← reload node_workload n
  if not held && not room
      then defer_nmr n l
      else set_inner_state node_workload n LockInnerState.active

abbrev pub without_status : Node → Node
without_status n = record n { conditions = [] }

-- The fields of `dummy(name)`, with the node's description if there is such a node.
abbrev pub dummy : Kind → String → Cluster → Lock
dummy k name c = record {
  name = name;
  controller_name = workload;
  node_name = elim k [ node_workload ↦ after_char b'-' name | cluster_workload ↦ "" ];
  original_node = elim k [
    | node_workload ↦ Option.map without_status (find_node (after_char b'-' name) c)
    | cluster_workload ↦ none
  ];
  inner_state = none;
  state = none;
  release = none;
  error_message = none;
}

abbrev or_else : {A : Type 0} → Option A → Option A → Option A
or_else (some a) b = some a
or_else none b = b

-- `merger.merge(self.obj, self.dummy(self.name))`: what the dummy says wins, the rest stays.
unfoldable pub merge_dummy : Lock → Lock → Lock
merge_dummy d l = record l {
  controller_name = d.controller_name;
  node_name = d.node_name;
  original_node = or_else d.original_node l.original_node;
}

unfoldable pub create : Kind → String → Exec (Unit {0})
create k n = modify (λ c. with_locks k c (locks k c ++ dummy k n c ∷ []))

-- `self.get_release() == wanted`
abbrev pub is_release : Option String → String → Bool
is_release none wanted = false
is_release (some r) wanted = r == wanted

-- A lock that an older release of the controller left is made active again.
unfoldable pub renew_release : Settings → Kind → String → Exec (Unit {0})
renew_release cfg k n = if cfg.cluster_release == "" then pure tt else (do
  r ← get_release k n
  if is_release r cfg.cluster_release
      then pure tt
      else (do set_state k n LockState.active; set_release k n cfg.cluster_release))

-- The object is created with an explicit state, or brought up to date.
unfoldable pub post_dummy : Kind → String → Bool → Exec (Unit {0})
post_dummy k n true c = patch k n (merge_dummy (dummy k n c)) c
post_dummy k n false c = (do create k n; set_state k n LockState.active) c

unfoldable pub present : Settings → Kind → String → Exec (Unit {0})
present cfg k n = do old ← gets (lock_exists k n); post_dummy k n old; renew_release cfg k n

unfoldable pub absent : Kind → String → Exec (Unit {0})
absent k n = modify (λ c. with_locks k c (remove_named n (locks k c)))
