-- ===== src/Lib.antt =====
-- Resilient datacenter: the maintenance transactions of a node, the installation of its machines,
-- the plan of a site and its network, and the partners of a regional gateway.
--
-- The guided journey (scripts/product_journey.py) asks an operator for a role and saves the answers;
-- from them follow the machines to make. A plan of a site (scripts/portable_plan.py) places machines
-- and networks on hosts, and scripts/portable_network.py derives the firewall and the addresses of
-- each host from it. The machines are made as stopped shells on Proxmox (scripts/proxmox_provision.py)
-- and installed through the console of Proxmox
-- (scripts/guest_installation.py).
--
-- A node runs one application (a relay, an identity host, a storage host and so on). Its data is
-- replaced in two ways, and both can be interrupted at any moment by an error, a signal or the loss
-- of the machine: a restoration of a backup (scripts/restore_transaction.py) and an upgrade of the
-- application (scripts/upgrade_transaction.py). Each keeps a journal on the disk and a marker that
-- names it, calls a runtime for services and firewall, and is resumed by `recover` from what is on
-- the disk. Scheduled backups run from a frozen directory of code that is exchanged by two resumable
-- renames (scripts/backup_schedule.py). Its managed certificate is exchanged with a fallback to the
-- previous one (scripts/certificate_lifecycle.py). A snapshot stops the services of the node, copies
-- the resources that scripts/backup_contracts.py lists and starts the services again
-- (scripts/backup_snapshot.py). What the probes of a node find (scripts/status_probe.py) is shown as a
-- status that makes no claim of its own (scripts/product_status.py).
--
-- Regions that share services sign an agreement (scripts/regional_agreements.py). A gateway between
-- regions accepts the agreements of its partners (peer_rules of scripts/gateway_contracts.py) and
-- changes its partners by a transaction of its own (scripts/gateway_transition.py).
--
-- Files:
--   Shared             names of the library that the others use
--   Shared/Tests       Boolean tests on numbers, and case lemmas
--   Shared/Lists       lists over the native numbers
--   Shared/Effects     exceptions (an Exception, a BaseException such as Ctrl-C, the loss of the
--                      machine) and actions that may end with one
--   Shared/Maintenance the steps that all of them are made of: file operations, runtime calls,
--                      loops over names
--   Shared/Stored      private JSON files and the pending marker
--   Shared/Texts       the shapes of identifiers and digests
--   Shared/Hoare       pre- and postconditions of such actions
--   Shared/Optional    code that only reads and may raise
--   Shared/Sorted      sorted sets of texts
--   Shared/Apart       lists whose members are pairwise apart
--   Restore/State      the disk, the journal, the marker, the evidence
--   Restore/Files      file operations, and what the environment provides
--   Restore/Plan       plan of scripts/restore_transaction.py
--   Restore/Rollback   clean_workspaces, finish, rollback, and record of scripts/restore_evidence.py
--   Restore/Transaction apply and recover
--   Restore/Invariant  what a consistent disk is, and how file operations keep it
--   Restore/Finishing, RollingBack, Loading, Recovering, Preparing, Swapping, Applying, Suspending,
--   Restore/Answering  the lemmas on each part of apply and recover
--   Restore/Safety, Restore/Finality the properties
--   Restore/Tests      runs at concrete inputs, and the witnesses
--   Upgrade/State      the disk, the journal, the result, and the calls of the backend
--   Upgrade/Journals   validate_snapshot, validate and last_result of scripts/upgrade_transaction.py
--   Upgrade/Transaction save, pending, finish, rollback, apply and recover
--   Upgrade/Invariant  what the calls say of the node, what a consistent disk is, and how steps keep it
--   Upgrade/Finishing, RollingBack, Upgrading, Answering, Recovering
--                      the lemmas on each part of apply and recover
--   Upgrade/Safety, Upgrade/Finality, Upgrade/Freezing the properties
--   Upgrade/Tests      runs at concrete inputs, and the witnesses
--   Upgrade/Files      scripts/upgrade_files.py: the candidates of an upgrade and the originals
--   Upgrade/Originals, Upgrade/Replacing the lemmas on its operations
--   Upgrade/Upgrades   any number of attempts, and the refinement of the abstract view
--   Upgrade/FilesTests runs at concrete inputs, and the witness
--   Upgrade/Catalogue  scripts/application_catalogue.py
--   Upgrade/Planning   validate_plan of scripts/upgrade_transaction.py
--   Upgrade/Transitions the lemmas on them
--   Upgrade/Reviewed   the property of a plan that is accepted
--   Upgrade/PlanTests  runs at concrete inputs, and the witness
--   Guest/State        the journal of a guest and what Proxmox shows
--   Guest/Observing    the guards, observed, load_state and the requests of scripts/guest_installation.py
--   Guest/Console      attach, start, finish, boot, status and confirm_login
--   Guest/Grades, Guest/Accepting, Guest/Once the lemmas on each operation
--   Guest/Sessions     any number of operations, and the properties
--   Guest/Tests        runs at concrete inputs, and the witnesses
--   Gateway/State      the files of a gateway's store
--   Gateway/Store      scripts/gateway_store.py, and load and review of scripts/gateway_recovery.py
--   Gateway/Transition apply of scripts/gateway_transition.py
--   Gateway/History, Gateway/Reading, Gateway/Closing the lemmas on each operation
--   Gateway/Progress, Gateway/Applying the same where nothing fails
--   Gateway/Candidates what candidate proposes
--   Gateway/Floors     suspend of scripts/gateway_recovery.py
--   Gateway/Safety     the properties under faults
--   Gateway/Tests      runs at concrete inputs, and the witnesses
--   Agreement/Values   JSON values, and their canonical text
--   Agreement/Documents the body of an agreement, its validation, encoding and decoding
--   Agreement/Verifying, Agreement/Consenting the lemmas on verify and evaluate
--   Agreement/Approval, Agreement/RoundTrip, Agreement/Ordering the properties
--   Agreement/Peers    peer_rules of scripts/gateway_contracts.py
--   Agreement/Catalogue the documents that peer_rules has accepted
--   Agreement/Tests    runs at concrete inputs, and the witnesses
--   Site/Addresses     networks of IPv4 as intervals of numbers
--   Site/Plan          validate of scripts/portable_plan.py
--   Site/Network       derive of scripts/portable_network.py
--   Site/Preview       preview of scripts/portable_plan.py
--   Site/Separation, Site/Placement, Site/Isolation, Site/Reservation the properties
--   Site/Tests         runs at concrete inputs, and the witnesses
--   Schedule/State     the directories of the runtime, record_attempt and overdue of
--                      scripts/backup_schedule.py
--   Schedule/Refreshing create_runtime and refresh_runtime
--   Schedule/Stages, Schedule/Resuming, Schedule/Starting the stages of an update, and its lemmas
--   Schedule/Safety, Schedule/Recording the properties
--   Schedule/Tests     runs at concrete inputs, and the witnesses
--   Allocation/State   payloads of scripts/proxmox_provision.py, and the answers of Proxmox
--   Allocation/Provisioning check, wait_task and allocate
--   Allocation/Missing, Allocation/Inspecting the lemmas on check
--   Allocation/Creating, Allocation/Waiting the properties
--   Allocation/Tests   runs at concrete inputs, and the witnesses
--   Status/States      the dimensions and the states of scripts/product_status.py
--   Status/Collecting  sanitize, collect and needs_attention
--   Status/Bounds      the property of what is collected
--   Status/Attention   the lemmas on needs_attention
--   Status/Tests       runs at concrete inputs, and the witnesses
--   Status/Host        what scripts/status_probe.py reads of a node
--   Status/Discovering discover
--   Status/Probing     network_status, applications and partners
--   Status/Certificates certificates and infrastructure_certificate
--   Status/Backups     backup, status_summary of scripts/backup_operations.py, and latest of
--                      scripts/restore_evidence.py
--   Status/Worker      probe, the worker of a dimension, and run_probe of scripts/product_status.py
--   Status/Grounds     what a valid certificate, a current backup, a running service and a verified
--                      recovery stand on
--   Status/Sound, Status/ValidCertificates, Status/CurrentBackups the lemmas on each probe
--   Status/Healthy     the properties of the worker and of the status that it makes
--   Status/ProbingTests runs at concrete inputs, and the witnesses
--   Capture/State      the destination of a snapshot, and the requests to the services
--   Capture/Capturing  capture and _capture of scripts/backup_snapshot.py
--   Capture/Events     what the requests say of a service
--   Capture/Stopping, Capture/Restarting, Capture/Recovering the lemmas on the parts of a capture
--   Capture/Safety     the property
--   Capture/Tests      runs at concrete inputs, and the witness
--   Scope/Resources    resources and binary_paths of scripts/backup_contracts.py, and
--                      scripts/backup_scope.py
--   Scope/Separation   the property
--   Scope/Tests        runs at concrete inputs, and the witness
--   Rotation/State     generation and point of scripts/certificate_lifecycle.py
--   Rotation/Activation activate
--   Rotation/Soundness, Steps, Staging, Switching, Cleaning, Activating the lemmas on its parts
--   Rotation/Safety    the properties
--   Rotation/Tests     runs at concrete inputs, and the witnesses
--   Journey/Answers    acceptable and validate_answers of scripts/product_journey.py
--   Journey/Machines   machines, record and load
--   Journey/Wizard     wizard
--   Journey/Asking, Journey/Roles the lemmas on the dialogue and on the machines
--   Journey/Saving, Journey/Loading, Journey/Replacing the properties
--   Journey/Tests      runs at concrete inputs, and the witnesses
--
-- Restoration. A resource is an index into `paths`: its slot is the resource at root/name together
-- with its workspace `.rdc-restore-<id>-<index>`, whose entries `old` and `new` are there or not.
-- Data is of any type T. Every operation of the file system asks the host for a fault: it succeeds,
-- or stops before its effect, or stops after it, by an Exception, an interrupt or a crash. After a
-- crash nothing runs, no except clause either, and the disk is all that is left. Copying to `new`
-- is two operations, of partial data and of all of it. Every call of the runtime may read the disk,
-- changes the host in any way, and returns or raises: the theorems ask nothing of it. For the owner
-- of a gateway, begin_restore writes the recovery reference into the store etc/rdc-gateway, which is
-- itself a resource, before any resource is set aside: that write is modelled with private_write's
-- clean-up, and the previous data of that one resource then has the reference, or what is left where
-- the write was interrupted. What services that still run write to their own data is not modelled.
--
-- Upgrade. The data lies behind the backend, which the code is given. The model records its calls
-- in order, each with whether it returned. From them follow the version that the last migration or
-- restoration left (`version`), whether it was verified since (`checked`), and whether the
-- migration was ever called (`begun`). A transaction may be stopped at any file operation and at
-- any call.
--
-- The candidates of an upgrade are slots as in a restoration. The abstract view of a slot is the data
-- that its resource had before the upgrade; staging, restoring and every write to a candidate keep it.
--
-- What a plan of an upgrade may lead to is read from the catalogue, which is a parameter as the file is.
--
-- Snapshots. A capture notes each request to a service, and each copy, in order; a query is noted with
-- its answer. From these follow whether a service stands stopped and what it has answered since.
--
-- Status. A probe only reads, so a node is a record of what each read gives, and `none` is an
-- exception. Whether the worker catches what the probe of a dimension raises is a field of the node
-- (`is_caught`); where it does not, the worker prints nothing. The worker prints its item as JSON,
-- which the parent reads again; what run_probe raises are exceptions that collect catches.
--
-- Journey. The parser of load, what the wizard finds in the directory and whether write_bundle
-- returns are parameters. An interrupt while files are written counts as cancelled, as in the code.
--
-- Guest installation. scripts/guest_installation.py takes a machine of Proxmox from an empty shell
-- to an attested system, with the operator at the console between the commands. Its journal records
-- each intent before the request is posted. The model notes every request that is posted, and takes
-- every answer of Proxmox from the host, so that it may be anything.
--
-- Gateway policy. A change of a regional gateway's partners writes its intent, closes access,
-- commits the policy, and opens again. The model records the calls of the runtime in order. A
-- document of an agreement is of any type; whether the documents are acceptable is asked of
-- `peer_rules`, and their times are functions.
--
-- Agreements. The signature, the digest and the parsing of times belong to libraries and are
-- parameters with the laws that their documentation gives. A document is a JSON value, and a body
-- has the fields that `_fields` asks for.
--
-- Sites. An address is a number below 2 ^ 32, and a text that ipaddress refuses is `none`. A plan is
-- typed as the JSON document is; whatever its values are, `validate` decides.
--
-- Schedules. A directory is the manifest that verify_runtime finds in it, or unsafe. Every file
-- operation may stop as in a restoration.
--
-- Allocation. Every answer of Proxmox comes from the host and may be anything. The model notes the
-- listings of machines that check reads, and each creation with the listing before it.
--
-- Certificates. A generation is a directory that is named by the digest of its certificate and key.
-- The digest, the validator and the runtime are parameters; the disk also keeps which fingerprint
-- the last call of the runtime has verified.
--
-- Choices. Times are microseconds, and a text that timestamp refuses is `none`. Identifiers of
-- transactions are numbers and not hexadecimal texts, and the ownership and the component hashes,
-- which the code only compares, are texts. The free-space test multiplies by 1.1 in floating point;
-- here the sizes are counted in tenths. A journal or a marker that read_journal refuses, for its
-- type, owner, mode, size or syntax, is one value, `unsafe`. The wizard runs over the inputs that
-- the operator types, and str.isalnum is a parameter. Loops run over a list, except for two that
-- use fuel: the decimal text of a number has 16 digits, which is enough below 10 ^ 16, and wait_task
-- makes 60 rounds, which is enough for its 120 seconds as each round sleeps for two.
--
-- Not modelled: the runtime (scripts/restore_runtime.py and scripts/upgrade_runtime.py), which
-- calls systemd and nft and is an argument here as it is in the code; the retention of settings
-- (retain_current_settings), which enters as a function on data; the validation of a snapshot,
-- which enters as a Boolean; the other scripts, which are listed with the reason in the manifest.
pub mod Shared
pub mod Restore
pub mod Upgrade
pub mod Guest
pub mod Gateway
pub mod Agreement
pub mod Site
pub mod Schedule
pub mod Journey
pub mod Rotation
pub mod Allocation
pub mod Status
pub mod Capture
pub mod Scope
