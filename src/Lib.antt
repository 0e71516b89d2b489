-- ===== src/Lib.antt =====
-- Project Filum, the back end: the logic of its workflow engine and task services, modelled from the
-- Python sources and proved correct.
--
-- The parts, and the file of each (paths from the repository's root):
-- - Value, Text: JSON values and texts with Python's equality, order, truth test, `in`, `strip`,
--   `lower` and `sorted`, as the services use them. Numbers are integers: a float in a context is
--   not modelled. A dict is a list of fields with each key once.
-- - Condition (backend/app/services/condition_evaluator.py): `evaluate_condition` and, in
--   Condition/Rules.antt, `evaluate_routing_rules`. The engine calls both on edges, the template check calls
--   `is_else_condition`. Python evaluates a nested condition by recursion; the model evaluates a list
--   of sub-conditions where it stands in its object, so that the recursion is structural.
-- - Search: the worklist loop that several services write, with its two theorems.
-- - Topology (backend/app/services/workflow_graph_template_topology.py): the check of a template's
--   graph before it is published. A message is a constructor over what the message shows. A Python
--   set is a list, and every theorem holds for any order of it.
-- - Errors: an exception is a value with its class and its message.
-- - Command (backend/app/services/workflow_command_receipt_service.py, workflow_command_executor.py and
--   workflow_operational_incident_service.py of the same folder): a command and its receipt in one
--   transaction. A session holds the rows as committed and as the open transaction sees them;
--   `commit` and `rollback` copy one to the other. Rows that other sessions commit meanwhile are
--   arguments (`rivals`, `later`). SHA-256 over canonical JSON and the parsing of a UUID are the
--   record `Digests`, of which no law is used. The operation is any function of the other tables that
--   does not commit. Of an incident the ids that it refers to are left out, and the race of two
--   sessions that insert the same incident.
-- - Handler (backend/app/services/workflow_node_handlers.py and workflow_decision_policy.py): the
--   handlers of the three node types as records of functions, their registry, the policy for
--   decisions, and `_activation_result` and `_completion_result` of workflow_graph_service.py. What
--   Python's `str` prints for a value that is neither a text nor `None` is the argument `show`.
-- - Runtime (backend/app/services/workflow_graph_service.py, the functions that end in `_v3` and what
--   they call): how a run goes on when a node has completed. The state is the rows of one run. A
--   query is a test on a row, an UPDATE is `update_if`. Routes evaluates the edges and keeps the
--   evidence, Reach searches downstream, Nodes changes node instances, Join looks for nodes that are
--   ready, Complete ends the run, Advance puts them together. An exception leaves no state behind,
--   since the executor of commands rolls back. Assignment of users, creation of approvals, digests,
--   time stamps as texts and the chain to a next template are the record `Outside`. The fuel of
--   `activate_downstream` counts the notices that complete one inside another; each leaves one open
--   node less, so any fuel above the number of open nodes is enough. Columns that only describe an
--   event (its version, its request) are left out.
-- - Capability (backend/app/services/workflow_template_capability_contract.py): what a template and a
--   task of it can do. The dicts that the code builds are the records `Snapshot` and `TaskCapability`,
--   and `snapshot_fields` and `capability_fields` write them as the dicts that are stored.
-- - Chain (backend/app/services/workflow_graph_template_chain_service.py): templates that start a next
--   one. How pydantic reads the setting is the argument `Validate`. The stack of the cycle check is a
--   list; its fuel is one more than the number of links, which is enough, since each template is
--   expanded once and gives at most one other. Trigger ends where the new run is created, and gives
--   the template and the context for it.
-- - Task (backend/app/services/task_service.py, task_action_policy.py and task_user_facing_state.py of the
--   same folder): the commands on one task. `TaskState` is the row, its log and one value for all other
--   tables; `TaskServices` is what the commands call there. A command that locks the row takes two
--   tasks, the one that it read first (`loaded`) and the row under the lock, which another command may
--   have changed between. `finish_command` drops what a command wrote if it raises before its commit.
--   Access has the guards, Actions what the client offers, Offer compares the two. Commands changes
--   the status, Handshake accepts and rejects, Delegate passes a task on, Reviewer names who reviews,
--   Deliverable submits, Review decides, Archive ends a task for an admin. Life is the specification:
--   a table of the changes of status per kind of command, and what the stamps of time say. History
--   runs commands one after another. Paging is the list of the task center, UserState what is shown.
--   How Python reads a UUID or a number from a text are arguments; ids are texts.
-- - Outbox (backend/app/workers/workflow_outbox_worker.py): the worker that delivers workflow events.
--   A row is an `OutboxEvent`, a run is `process_events` over the table. When a message is sent,
--   whether an exception is raised is part of the record `Surroundings`, as are the rows that other
--   workers hold. Times are seconds; `clock` gives the time at which each event is handled.
-- - RateLimit (backend/app/core/rate_limit.py): the window of hits in memory, per key, and the
--   decision on the counter that the Redis script returns. Times are whole nanoseconds, where Python
--   has a float; the lock makes a check one step; the script itself runs in Redis and is an argument.
--
-- Not modelled: the rest of workflow_graph_service.py (templates, creation of runs, node commands,
-- administration, the engine for older runs), of task_service.py (creation and update of tasks,
-- comments, watchers, the inbox and statistics), organization, notifications, reports, projections,
-- video workflows, the HTTP API, migrations and the front end. Their core is queries and the building of
-- rows and messages, or it is left for later.
pub mod Base
pub mod Value
pub mod Text
pub mod Errors
pub mod Condition
pub mod Search
pub mod Topology
pub mod Command
pub mod Handler
pub mod Runtime
pub mod Outbox
pub mod RateLimit
pub mod Capability
pub mod Chain
pub mod Task
