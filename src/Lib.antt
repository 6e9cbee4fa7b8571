-- ===== src/Lib.antt =====
-- ansible-operator: a Kubernetes operator that turns AnsibleHost, AnsibleGroup, AnsiblePlaybook and
-- AnsibleReconcileJob resources into a cron job that runs Ansible.
--
-- Parts and files. Each controller is called with the key of an object, reads other objects from
-- the API server, writes some, and sets conditions on the status of its own object.
-- + Base: Go's errors, panics and error-returning functions (Flow, with postconditions and
--   invariants in Post, normal returns in Sure and freedom from panics in Calm), maps that may be
--   nil (Maps), text (Texts), slices.Sort (Sorting).
-- + Api: the resource types of api/v1alpha1.
-- + Kube: what is called and not implemented here. Interface is client.Client, the condition
--   helpers of apimachinery, SetControllerReference and IsControlledBy over an unknown server
--   state; Laws has what is relied on of them, Calm that none of them panics; Memory is an API
--   server in memory that meets the laws (Memory/Lawful). Objects are the Kubernetes types. Calls
--   has a reconcile in progress: the server, the write requests sent so far, the object that is
--   reconciled.
-- + VarsConfigMap: ensureVarsConfigMap, which internal/controller/ansiblegroup_controller.go and
--   ansiblehost_controller.go have each in a copy that differs in the kind alone.
-- + Group: internal/controller/ansiblegroup_controller.go. Status (setCondition,
--   defaultStatusToUnknown), Health (checkGroupHealth), Reconcile, Watches (index functions and
--   requests), Setup (SetupWithManager). Of the proofs on Reconcile, Settling and Convergence are
--   about one reconcile, Step and Cascade about reconciles of several groups.
-- + Ssh: internal/ssh/ssh_keyscan.go. Keyscan (scanHostWithAlgos, ScanHost,
--   HostKeysToSortedString); Dedup, Order and Found are proofs.
-- + Host: internal/controller/ansiblehost_controller.go. Status (setStatusReady,
--   setStatusNotReady), Secrets (hostPrivateKeySecretExists, ensureHostKeysSecretExists,
--   createHostKeysSecret, getHostKeys), Reconcile, Setup (SetupWithManager).
-- + ReconcileJob: internal/controller/ansiblereconcilejob_controller.go. Status, Progress
--   (updateStatusConditions), ConfigMaps (ensureConfigmapWithData), RuntimeConfig, KnownHosts,
--   Inventory (constructInventoryContent, renderInventoryTemplate), CronJobs
--   (constructCronjobWithMounts, ensureCronjobWithMounts), Reconcile (with handleReconcileError),
--   Watches, Setup (SetupWithManager).
-- + Playbook: internal/controller/ansibleplaybook_controller.go, whose Reconcile does nothing.
-- + Main: cmd/main.go. Options (from the flags to the options of the manager), main and init up to
--   the exit status; Order and Hardening are proofs.
-- + Manager: the manager of controller-runtime, a parameter: the data that it is given, and the
--   calls made of it (Calls). A change of an object that a controller does not own causes the
--   request of the object itself, if it is of the kind that the controller reconciles, and those of
--   every map function that is registered for the kind.
-- + DeepCopy: api/v1alpha1/zz_generated.deepcopy.go. Structs (the resources with addresses for
--   slices and pointers), Memory (cells, and the pieces of code that the generator repeats),
--   Groups, Hosts, Playbooks and Jobs (the functions, named copy_ with the resource or its part:
--   DeepCopy, with _into DeepCopyInto, with _object DeepCopyObject), Library (the deep copies of
--   metav1, parameters). Copied and Alike are proofs, and so are Laws and Independence. An array is
--   allocated with its elements, once they are copied, and the struct that DeepCopy allocates is
--   returned as a value.
-- + Writes: what the three controllers write, counted.
-- + Tests: runs against the server in memory, and the theorems at concrete data.
--
-- How the code is read. A Reconcile is an action on a Session; its result is a value, an error or a
-- panic, and what was sent before an error stays sent. Reads leave the server as it is. Between two
-- calls of one reconcile nobody else writes. A write answers with an object, which is decoded into
-- the caller's. An error keeps whether it is a "not found" under %w and loses it under %v. A
-- pointer is an Option, and a read through nil is a panic. Loops over slices are structural
-- recursion. Numbers are printed by recursion on fuel that is one more than the number, which is
-- enough since each round divides by ten. Strings are compared by code points, which for UTF-8 is
-- Go's order of bytes. Log lines are left out.
--
-- The network, golang.org/x/crypto/ssh and the order in which the goroutines of a scan answer are
-- parameters of Ssh, and ParsePrivateKey one of Host. handleReconcileError works on a copy of the
-- job, which nothing reads afterwards.
--
-- Not modelled: the parsing of the command line and of the logger's flags, logging, the requests of
-- controller-runtime for the owner of a changed object, the names by which the code refers to its
-- indexes (a list by an index is given the index function), the registration of the API group, the
-- runner images, tests.
pub mod Base
pub mod Api
pub mod Kube
pub mod Manager
pub mod VarsConfigMap
pub mod Group
pub mod Ssh
pub mod Host
pub mod ReconcileJob
pub mod Playbook
pub mod Main
pub mod Writes
pub mod DeepCopy
mod Tests
