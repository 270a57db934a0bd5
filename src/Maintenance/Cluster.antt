-- ===== src/Maintenance/Cluster.antt =====
-- The state of the API server as the maintenance code sees it, and methods that change it and may
-- raise. What was written before a raise stays written, so the state comes back beside the error.
use openstack_controller.Common.{
  ◌==◌, if◌then◌else◌, find, ℕ, String, Bool, Option, List, [], ◌∷◌, nat_eq, string_eq,
}
use openstack_controller.Kube.Node.{Node}

pub data LockState : Type 0 where
  active inactive failed : LockState

pub data LockInnerState : Type 0 where
  active inactive : LockInnerState

-- What the code writes to `status.errorMessage` and raises with.
pub data Message : Type 0 where
  concurrency_exceeded services_block_nmr : (node : String) → Message
  waiting_for_release waiting_for_applied waiting_for_health services_not_healthy : Message
  node_still_exists : Message

pub data Exception : Type 0 where
  temporary : Message → Exception
  hook_failed not_found key_error still_waiting : Exception

pub data Result (A : Type 0) : Type 0 where
  ok : A → Result A
  err : Exception → Result A

-- A NodeWorkloadLock or ClusterWorkloadLock object. `original_node` is its annotation of that name.
pub record Lock : Type 0 where
  pub name : String
  pub controller_name : String
  pub node_name : String
  pub original_node : Option Node
  pub inner_state : Option LockInnerState
  pub state : Option LockState
  pub release : Option String
  -- with the time of `set_error_message`
  pub error_message : Option (ℕ × Message)

pub data Kind : Type 0 where
  node_workload cluster_workload : Kind

-- The calls that a service's maintenance API gets.
pub data Hook : Type 0 where
  remove_node_from_scheduling prepare_node_for_reboot : Hook
  prepare_node_after_reboot add_node_to_scheduling : Hook
  process_ndr cleanup_metadata cleanup_persistent_data : Hook

pub record Call : Type 0 where
  pub hook : Hook
  pub service : String
  pub node : String

pub record Cluster : Type 0 where
  pub nodes : List Node
  pub node_locks : List Lock
  pub cluster_locks : List Lock
  -- the names of the OpenStackDeployment objects
  pub osdpls : List String
  -- `status.osdpl.state` of the OpenStackDeploymentStatus is APPLIED
  pub applied : Bool
  pub disabled_nodes : List String
  pub clock : ℕ
  -- the calls that services got, the latest first
  pub calls : List Call

abbrev pub locks : Kind → Cluster → List Lock
locks node_workload c = c.node_locks
locks cluster_workload c = c.cluster_locks

abbrev pub with_locks : Kind → Cluster → List Lock → Cluster
with_locks node_workload c l = record c { node_locks = l }
with_locks cluster_workload c l = record c { cluster_locks = l }

abbrev pub named : String → Lock → Bool
named n l = l.name == n

abbrev pub find_lock : Kind → String → Cluster → Option Lock
find_lock k n c = find (named n) (locks k c)

-- A patch of the object of that name.
abbrev pub update_named : String → (Lock → Lock) → List Lock → List Lock
update_named n f [] = []
update_named n f (l ∷ ls) = if l.name == n then f l ∷ ls else l ∷ update_named n f ls

-- A deletion of the object of that name.
abbrev pub remove_named : String → List Lock → List Lock
remove_named n [] = []
remove_named n (l ∷ ls) = if l.name == n then ls else l ∷ remove_named n ls

abbrev pub Exec : Type 0 → Type 0
Exec A = Cluster → Result A × Cluster

module _ {A : Type 0} where
  abbrev pub pure : A → Exec A
  pure a c = (ok a, c)

  abbrev pub raise : Exception → Exec A
  raise e c = (err e, c)

  abbrev pub lift : Result A → Exec A
  lift r c = (r, c)

  abbrev pub gets : (Cluster → A) → Exec A
  gets f c = (ok (f c), c)

abbrev pub modify : (Cluster → Cluster) → Exec (Unit {0})
modify f c = (ok tt, f c)

module _ {A B : Type 0} where
  abbrev pub continue : Result A → (A → Exec B) → Exec B
  continue (ok a) f c = f a c
  continue (err e) f c = (err e, c)

  infixl 5 ◌>>=◌ ◌>>◌
  unfoldable pub ◌>>=◌ : Exec A → (A → Exec B) → Exec B
  ◌>>=◌ m f c = let (r, c') = m c in continue r f c'

  abbrev pub ◌>>◌ : Exec A → Exec B → Exec B
  m >> n = m >>= λ _. n
