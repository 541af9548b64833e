-- ===== src/Lib.antt =====
-- Verification library of the backend of Substra (the directory backend/ of the repository).
--
-- An organization of a Substra network runs this backend. The orchestrator, a service, orders the
-- events of the network; the backend follows them in two processes. One writes what each event says to
-- the local database, which the API serves (backend/api/events). The other one is the compute engine
-- (backend/substrapp/events): it queues the compute tasks of this organization with Celery, each on
-- the worker that has the pod of its compute plan, and a worker runs them.
--
-- Parts and files:
-- - Prelude: Boolean tests, lists and results (`Result`, for Python code that may raise) that the other
--   files share. Store: a table with a primary key, and its laws.
-- - Models: the rows of backend/api/models and of the failure reports, and the database `Db` that they
--   stand in.
-- - ComputePlan: backend/api/models/computeplan.py, `update_status` and `update_end_date`, as functions
--   of the row of the plan and the rows of the tasks. Its children prove what the status, the first failed
--   task and the dates are.
-- - Sync: backend/api/events/sync.py. Events has the payloads, Saving the serializers of
--   backend/api/serializers, Assets, Inputs, Tasks and Outputs the handlers, Dispatch the table
--   EVENT_CALLBACKS and the loop `consume_channel` of backend/api/events/reactor.py. A handler takes the
--   database to a database or to an exception, which rolls the transaction back. Refresh uses the theorems
--   of ComputePlan. Replay and Duplicates are about events that are delivered again, Consuming about the
--   loop, Updates about the handlers that change a row.
-- - LockLocal: backend/substrapp/lock_local.py, as a state machine: each call of the operating system that
--   a process makes is a step, and the steps of all processes are interleaved in any order. Invariant
--   and Safety are about mutual exclusion, Progress about what a process that runs alone reaches,
--   SecondaryTimeout about a process that runs out of time.
-- - TaskRouting: backend/substrapp/task_routing.py, over the table of the mappings and the number of the
--   workers. Counts and Choice are about the worker that is chosen, Mappings and Release about the table.
-- - Worker: the compute engine, with an answer of the orchestrator for each question. Runnable is
--   backend/substrapp/compute_tasks/compute_task.py; Running is `_run` and `compute_task` of
--   backend/substrapp/tasks/tasks_compute_task.py, as a list of effects beside a result; Effects has the
--   lemmas on these. Queueing has the messages to Celery and uses TaskRouting; Reactor is
--   backend/substrapp/events/reactor.py with handler_compute_engine.py; its children are about the messages
--   that an event makes it send.
-- - Archives: the checks of backend/substrapp/utils/tarsafe.py and safezip.py, which are made against the
--   working directory, whichever directory the archive is extracted in. Prefix is about the test by
--   prefix, Escape about what an archive that passes can contain; Requested is raise_if_path_traversal of
--   backend/substrapp/utils/__init__.py.
-- - AssetBuffer: backend/substrapp/compute_tasks/asset_buffer.py with `download` of
--   backend/substrapp/clients/organization.py, which a run calls before it executes its task. The buffer is
--   a function from a folder and a key to what stands there. Adding fills it, Linking gives the assets to the
--   directory of a task; Genuine and Keeping are about what a call leaves of it, Presence and TaskDirectory
--   about what a call that returns has brought, WrongChecksum about a broken data sample.
-- - ImageTransfer: backend/image_transfer, over the interface `Registry`, which the package dxf fills. Names
--   has the names of images as lists of characters, Encoder and Decoder the two files of these names. Laws has
--   what is relied on of a registry, and a registry in memory that has it. Blobs, Paths, Encoding, Manifests
--   and Carrying are about what the zip holds, Pushing and Targets about the load of one image, RoundTrip puts
--   them together.
-- - Access: the permissions and the downloads of backend/api/views/utils.py, with
--   backend/libs/permissions.py and backend/organization/authentication.py. Models is the export of models,
--   of backend/api/views/model.py, and the request from one backend to the next in
--   backend/substrapp/clients/organization.py; Exporting and Proxied are about it.
-- - Registration: the creation of data samples in backend/api/views/datasample.py, over the tables that it
--   changes. Rows is about the deletion of new rows, Creating about the whole of a creation.
-- - Failures: the exceptions of backend/substrapp/compute_tasks/errors.py and
--   backend/builder/exceptions.py, and the report of a failed task to the orchestrator. Builder: the loop of
--   backend/builder/tasks/tasks_build_image.py (Retries is about it), Pods the build of an image in
--   backend/builder/image_builder/image_builder.py, Saving backend/substrapp/tasks/tasks_save_image.py.
-- - Outputs: the saving of the models of a run in backend/substrapp/compute_tasks/outputs.py; Deleting and
--   Rollback are about a registration that is refused.
-- Tests and witnesses stand in the modules Examples and EventExamples, their data in Samples.
--
-- Numbers and bounds: keys, dates, contents and the ids of processes are natural numbers. The loop of
-- `build_image` runs on max_retries + 1 turns of fuel, and a theorem says that they are enough. The other
-- loops go over a list, and the waiting loops of the lock are steps of its state machine.
--
-- Parameters: the orchestrator, Celery, Kubernetes, the registries of images, hash functions and the
-- operating system are not part of the repository. What the
-- serializers find wrong with the fields of an event, the parsing of a date, the size of the stateful set
-- of the workers, and what the steps of a run raise, are arguments of the definitions.
--
-- Not modelled: the other views, the filters and the serializers of the API, the metadata of most assets,
-- the Kubernetes objects of pods and volumes, the performances of a run, the sessions and tokens of users, the
-- metrics exporter, the Helm charts and the settings. Threads and processes are modelled only in
-- LockLocal.
pub mod Prelude
pub mod Store
pub mod Models
pub mod ComputePlan
pub mod Sync
pub mod LockLocal
pub mod TaskRouting
pub mod Worker
pub mod Archives
pub mod AssetBuffer
pub mod ImageTransfer
pub mod Access
pub mod Registration
pub mod Failures
pub mod Builder
pub mod Outputs
