-- ===== src/Lib.antt =====
-- The PrimeHub controller: the quota arithmetic, scheduler, cleaner and reconciliation of its jobs, the
-- pods that it spawns, its custom images, its recurring jobs, its model deployments, its applications, and
-- its licenses.
--
-- A job (PhJob) is Pending until the scheduler sets it to Preparing. The scheduler computes what remains
-- of the quota of each group and user from the labelled pods in the cluster, and hands it out to the
-- pending jobs, oldest first. The controller creates the pod of a job that is Preparing, copies the course
-- of the pod into the status of the job, and ends jobs that are cancelled or that exceed a limit. The
-- cleaner deletes finished jobs. A pod is put together by a spawner, from the records of the user: the
-- group gives its image, its instance type, its shared volume and its datasets. A recurring job
-- (PhSchedule) has an entry in a cron, which creates a job of its template at each of its times, once a
-- trial spawner for it can be made. A custom image (Image, ImageSpec) gets a build job (ImageSpecJob),
-- whose pod builds and pushes it, and takes over the URL of what was built. A model deployment
-- (PhDeployment) and an application (PhApplication) each own a deployment, a service and the ways in: an
-- ingress with a secret for the one, two network policies for the other. The license controller checks
-- the stored license key and publishes the limits that it grants, in its status and in a secret.
--
-- Files:
--   Prelude and its children: the shared names; integers, lists and results over the native numbers.
--   GoTime: package time and the fixed-width integers of Go. int64 and int32 wrap around.
--   Numeric: resource.Quantity and float32 as an interface with laws; Numeric/Exact fills it for tests.
--   Kube: the parts of pods that the code reads.
--   Escapism: pkg/escapism/escapism.go.
--   Quota, Quota/Usage: pkg/quota/resourceQuota.go (ResourceQuota, ConvertToResourceQuota,
--     ValidateResource; CurrentResourceUsage, CalculateGroupRemainingResourceQuota and its kin).
--   PhJob: ee/api/v1alpha1/phjob_types.go.
--   StrictOrder, Scheduler: ee/controllers/phjob_scheduler.go (scheduleByStrictOrder; Schedule).
--   Cleaner: ee/controllers/phjob_cleaner.go (Clean).
--   JobStatus, JobAct, JobPod, JobController: ee/controllers/phjob_controller.go (the changes of
--     updateStatus; calls and early returns; reconcilePod and what it calls; Reconcile, with the limits of
--     a job in JobController/Limits).
--   JobPod/Additions, JobPod/Build: attachMonitoringAgent and buildPod of the same file; the theorems
--     are in JobPod/Standing, Mounts, Labels, Limits and Memory. Reconcile takes the error of buildPod as
--     an answer of its Script.
--   GoText: packages strings, path and sort.
--   Graphql: the records of pkg/graphql/graphql.go.
--   Spawn: pkg/graphql/spawn.go (type Spawner), with Spawn/Volumes, Spawn/Datasets, Spawn/Granted
--     (applyDatasets, mergeDataset), Spawn/Resources, Spawn/Build (BuildPodSpec, PatchPodSpec) and
--     Spawn/Constructors (NewSpawnerForJob, NewSpawnerForModelDeployment, NewSpawnerForPhApplication);
--     the theorems are in Spawn/Steps and JobSteps (what holds through every step of a spawner), Mounts,
--     Closed, Spawners and AppSpawners, Grants, Merged and Memory.
--   Image, Image/Objects, Image/Spec, Image/Build: controllers/image_controller.go, imagespec_controller.go and
--     imagespecjob_controller.go; the theorems are in Image/Actions, Follows, Builds and Times.
--   Schedule, Schedule/Tick: ee/controllers/phschedule_controller.go (Reconcile; buildPhJob and the
--     function of a cron); the theorems are in Schedule/Entries and Triggers.
--   Deployment: ee/api/v1alpha1/phdeployment_types.go, and with its children
--     ee/controllers/phdeployment_controller.go: PodStates and Pods (listFailedPods, explain), Status
--     (updateStatus), ModelVolumes, Storage, Containers and Build (buildDeployment), Objects (secret,
--     service, deletions), Access (the ingress), Update (createDeployment, updateDeployment), Recorded
--     (updateHistory), Reconcile;
--     the theorems are in Phases, Compare, Settles, Applied, Runs, Annotated, Guards, Sources, Known,
--     Closed, Mounts, ClosedBuild, Shares and Released.
--   Application: controllers/phapplication_controller.go and api/v1alpha1/phapplication_types.go, with
--     Application/Objects, Application/Status (updatePhApplicationStatus) and Application/Reconcile; the
--     theorems are in Application/Reasons, Phases, Policies, Templates and Deploys.
--   Airgap: pkg/airgap/airgap.go.
--   License: ee/pkg/license (NewLicense, Verify, Decode, TypeCheck).
--   LicenseController: ee/controllers/license_controller.go (Reconcile, buildSecret, updateSecret,
--     generateStatus, EnsureLicense); the theorems are in LicenseController/Limits and Secret.
-- Each directory holds the theorems on the file of its name, and its Samples the runs on small inputs.
--
-- Where the code calls the API server, the cache, the clock or the mail server, a definition takes the
-- answers as an argument: Answers for the scheduler, Script and PodAnswers for the job controller, Tools
-- and Cluster for the license, Cluster, SpecCluster and BuildCluster for the images, ScheduleAnswers and
-- TriggerAnswers for the recurring jobs, Faults, Seen and Answers for the deployments, AppFaults and
-- AppAnswers for the applications; encoding/json is the interface Codec; robfig/cron is the interface
-- CronLib. A theorem without a hypothesis on them holds for every course of the answers. A call of
-- Reconcile is the list of the calls that the cluster accepted and the way it ended. A nil pointer is
-- `none`, and the dereference of one is an outcome of its own. What the API server changes in an object
-- that it stores is not read back. A map is an association list, and `range` over it visits the entries in
-- any order. The map of an object that the API server returns is nil where it has no entries. A list that
-- is nil and an empty one are the same, but in the specification of a PhDeployment, whose `has_empty` says
-- that there is an empty one. A number of replicas is in the range of int32. No definition needs fuel: every
-- loop of this code runs over a list.
--
-- Not modelled: the affinity, display formats, probes, ports and constant policies of a pod; the Seldon
-- types of ee/controllers/types.go but for the predictor, which are data for the engine; the cache, whose
-- answers are arguments; the GraphQL client, which decodes JSON of HTTP answers; mail; and the entry points,
-- which wire the parts together. A model deployment has a first predictor, and an API server that fills in
-- defaults has set its replicas.
pub mod Prelude
pub mod GoTime
pub mod GoText
pub mod Numeric
pub mod Kube
pub mod Quota
pub mod Escapism
pub mod PhJob
pub mod Graphql
pub mod Spawn
pub mod Airgap
pub mod Deployment
pub mod Application
pub mod Image
pub mod Schedule
pub mod StrictOrder
pub mod Scheduler
pub mod Cleaner
pub mod JobAct
pub mod JobStatus
pub mod JobPod
pub mod JobController
pub mod License
pub mod LicenseController
