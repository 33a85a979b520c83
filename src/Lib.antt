-- ===== src/Lib.antt =====
-- A model of pvpool: a controller that keeps pools of persistent volume claims filled, hands their
-- volumes out to checkouts, and guards both kinds of object with webhooks.
--
-- The program's parts. A pool's reconciler (pkg/controller/reconciler/pool.go) loads the replicas
-- of a pool, classifies them as initializing, available or stale, configures and persists them, and
-- adds or removes one replica at a time until their number is the requested one. A checkout's
-- reconciler (pkg/controller/reconciler/checkout.go) takes the volume of a pool's oldest available
-- replica over: it locks the volume with a claim of its own, copies it to a second volume with the
-- checkout's access modes, and binds the checkout's claim to the copy. The pool's reconciler then
-- finds the claim that lost its volume stale and replaces it. The webhooks (pkg/webhook) check
-- pools and checkouts before either reconciler sees them.
--
-- Files and sources:
--   Prelude              lists with native positions, ℤ with int32 conversion, Boolean tests
--   Exec                 Go's `(A, error)` methods over state: ok, err, panic, and the model's cut-off
--   Api/Core             the Kubernetes structs, cut down to the fields that the source names
--   Api/Resources        pkg/apis/pvpool.puppet.com/v1alpha1/*_types.go and obj/*.go
--   Api/State            the structs PoolReplica, PoolState, CheckoutState of pkg/controller/app
--   Kube, Kube/Laws      the parameter for third-party code, and its documented behaviour;
--                        Kube/Frame: which claims and volumes its calls may write; Kube/Store: what
--                        a Load finds after a Persist; Kube/Lock: a claim and a volume that are
--                        taken; Kube/Disturbed: a server that others change before each call
--   Condition            pkg/controller/app/condition.go: UpdateCondition
--   Validation           pkg/apis/pvpool.puppet.com/v1alpha1/validation/validation.go
--   Replica              pkg/controller/app/pool_replica.go: Load, Delete, Persist, Pop,
--                        ApplyPoolReplica; Replica/Phase: Stale, Available; Replica/Jobs and
--                        Replica/Configure: ConfigurePoolReplica; Replica/Sharing: the volumes of
--                        jobs as slices of one array
--   PoolState            pkg/controller/app/pool_state.go and pool.go: Slots has Delete, Load has
--                        Load, Scale has persistScale, Persist has the rest of Persist, Configure
--                        has ConfigurePoolState and ConfigurePool
--   CheckoutState        pkg/controller/app/checkout_state.go and checkout.go: Pairs has
--                        NewCheckoutState, Load has Load and loadFromPool, Persist has Persist,
--                        Configure has ConfigureCheckoutState, Status has ConfigureCheckout
--   Reconcile            the two Reconcile methods with their deferred status updates;
--                        Reconcile/Interleaving: sequences of both, as a step relation;
--                        Reconcile/Locks: what they leave of a volume that is taken
--   Webhook              pkg/webhook: Validators has the admission checks, Access the access review,
--                        Server the registration with a manager, Injection the handler's setters
--   Process              pkg/opt (Config), pkg/runtime (Runtime), cmd (Commands), and what the
--                        reconcilers tell controller-runtime's builder (Controllers)
--   Copies               the generated deep copies (zz_generated.deepcopy.go of the API types and of
--                        pkg/webhook) over memory as a list of cells: Memory has the structs,
--                        DeepCopy each DeepCopyInto, Wrappers the wrappers and validators that
--                        point to them, Objects each DeepCopy
--   Tests                an instance of the parameters, and runs on concrete inputs
-- The other files under these folders hold proofs.
--
-- State. A method on a pointer becomes a function of the state that returns the state with every
-- outcome, so what was written before an error stays written. The API server is a type `World`
-- that each call takes and gives back. A nil dereference or an index out of range is the outcome
-- `panic`. A map of conditions is a function to Option. A replica's pointer to its pool is the
-- pool of the state that holds it.
--
-- Numbers. Positions and lengths are unbounded naturals, the int32 of replica counts is
-- `to_int32`, which wraps around. Times are seconds, with 0 for the zero time, and
-- durations are integers of nanoseconds.
--
-- Loops. A loop that pops replicas until there is none runs on one more round than the list is
-- long, and so does the loop of persistInitializing, which drops a replica or moves on in each
-- round. A round that there is no fuel for is the outcome `timeout`. All other loops go through a
-- list.
--
-- Not modelled. The k8sutil library, controller-runtime, apimachinery, viper, the log library, random
-- numbers, uuids and sorting are fields of `Kube`, `Schema`, `Gate`, `Parts`, `Library`, `Server`,
-- `Viper`, `Host` and `Certificates`. Log lines have no effect and are left out, as is the bad value
-- in a field error. In a PoolState a job's volumes are a copy of its template's; Replica/Sharing has
-- the array that they share, apart from the rest of the state, and Copies has the memory of the API
-- types, apart from the reconcilers. A step of Reconcile/Interleaving is a whole reconcile; another
-- one that overlaps with it is among the changes that others make before each of its calls, and
-- these are a function of the server's state. The wrappers' patchers, the registration of types and
-- the end-to-end tests are outside the model.
pub mod Prelude
pub mod Exec
pub mod Api
pub mod Kube
pub mod Condition
pub mod Validation
pub mod Replica
pub mod PoolState
pub mod CheckoutState
pub mod Reconcile
pub mod Webhook
pub mod Copies
pub mod Process
pub mod Tests
