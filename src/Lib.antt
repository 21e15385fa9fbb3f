-- ===== src/Lib.antt =====
-- Verification of the server of TAK-MDM, which manages a fleet of Android tablets.
--
-- The program. An operator assigns versioned policies to devices and groups; the resolver puts a
-- device's assignments in order of precedence and merges them field by field, each field with
-- the strategy that its policy type is annotated with, and records for every value who set it
-- and who lost. Actions that are no policy (lock, wipe, locate) go through a queue of commands
-- that a device collects at its check-in. A token bucket for each caller bounds how much work
-- the callers can ask for. A device is checked against compliance rules; while it fails them, a
-- clock runs until it is suspended, locked or wiped. Whatever an administrator does is a row of
-- a hash chain. What a device should have is kept with a moment until which it holds, marked as
-- stale by every write that concerns it, and computed anew only then; a policy can be built ahead
-- and come into force by the clock. A device that reports several identifiers, or others than
-- before, is found by the strongest that is known. Smaller parts are the rules of the web filter, the wire format of an app store,
-- the PIN past the permission screen, and the mode of a device in the wrong hands.
--
-- The files.
--   Base              names, lists, texts and numbers that the other modules share
--   Json              the values of a policy spec, with the `==`, `<` and hashing of Python
--   Merge             app/policies/strategies.py: one child for each strategy (Flags, Extremum,
--                     Union, Intersect, ByKey, Rank), `apply_strategy` in Apply, proofs in Denial,
--                     Bounds, Union/FirstSeen, Intersect/Common, ByKey/Collisions, Attribution
--   Resolver          app/policies/resolver.py: precedence and collection; `resolve` in Resolve,
--                     proofs in Order, Sorted, Explain, Explained and
--                     Returns; `diff_values` in Diff, with its proof in Diff/Changes
--   Commands          app/services/commands.py and the `DeviceCommand` of app/db/models.py: the
--                     table is a list of rows, an operation a function on it; History has any
--                     sequence of calls, proofs stand in Soundness, Delivery and Results
--   RateLimit         app/security/ratelimit.py; proofs in Credit, Recovery, Distinct
--                     and Size
--   Audit             app/services/audit.py: the rows and `verify`; audit_retention.py in Retention,
--                     audit_diff.py in Diff; proofs in Chain, Honest, Preserved, History and
--                     Secrecy
--   Compliance        app/services/compliance_rules.py: verdicts and `record`; `check` and
--                     compliance_actions.py in Actions; proofs in Clock, Alerts, Deadlines, Timeline,
--                     Wipe and Check
--   Effective         app/services/effective_policy.py: what is gathered for a device; its tables in
--                     Rows, the cache rows in Invalidation, `refresh` and `get_effective` in Refresh.
--                     Writes has what changes the tables: app/services/policy_admin.py, profiles.py,
--                     and the routers policies.py and assignments.py of app/api/routers. Calls has
--                     any sequence of writes and reads; proofs in Horizon (until the next
--                     transition), Affected, Reach and Sound (whom a write concerns), Fresh, Kept,
--                     Reading and History (reads), Again (versions), InForce, Gathered and
--                     NewSection
--   Deployment        app/services/deployment.py: what is in force; `activate`, `hold` and `sweep` in
--                     Sweep; proofs in Unchanged, Live and Swept
--   DeviceIdentity    app/services/device_identity.py; proofs in Parsed, Recorded,
--                     Adopted and Strongest
--   WebFilter         app/policies/web_filter_rules.py: `evaluate`; proofs in Order, Decision and
--                     Matching
--   Protowire         app/services/app_sources/protowire.py; proofs in Varint, RoundTrip, Errors
--                     and Termination
--   BypassPin         app/services/bypass_pin.py; proofs in Attempts
--   Breach            app/services/breach.py; proofs in Runs
--   Tests             the theorems at concrete inputs
--
-- How they interact. `resolve` calls `order_assignments`, `collect` and, through the registry's
-- merge rules, `apply_strategy`; its theorems rest on those of the strategies only through what
-- `apply_strategy` returns. `check` of the compliance rules stores the verdict, computes what is
-- due and queues or cancels a command in the table of Commands. The prune of the audit log
-- writes its own row with `record`. `compute` gathers assignments by `is_live` and `is_engaged`
-- and calls `resolve`; the writes, and `activate` and `hold`, invalidate what they affect. The
-- other parts stand alone.
--
-- Conventions. An exception is an error value. Code outside the repository is a parameter:
-- `json.dumps` is `dumps`, the clock and fresh ids are arguments; hashing, printing and
-- searching of texts stand in records of functions (`Library`, `Printing`, `Texts`). Loops are
-- structural recursion but for two in Protowire: a number of 64 bits has ten groups of seven,
-- and `decode` has a round for each byte, of which every round reads one. Integers are those of
-- Python, without bound. A `dict` with text keys is a list of entries in the order of insertion,
-- or, inside a value, in the order of its keys. The limiter counts tokens and time exactly, in
-- units small enough for every limit of whole requests per minute, where the code uses floating
-- point.
--
-- The rows of a query stand in the order of their table, which the resolver does not see. What
-- services outside the model make of a resolved policy (variables, apps, files, markers) is the
-- parameter `finish`, with the moment at which it changes next.
--
-- Not modelled: fractional numbers in specs, validation of specs by pydantic, the database beyond
-- the rows named above, creating, cloning and renaming profiles, the evaluation of single
-- compliance rules, the spelling of web filter rules, cryptography, the HTTP interface, the web
-- console, and the services that only move data between these.
pub mod Base
pub mod Json
pub mod Merge
pub mod Resolver
pub mod Commands
pub mod RateLimit
pub mod Audit
pub mod Compliance
pub mod WebFilter
pub mod Protowire
pub mod BypassPin
pub mod Breach
pub mod Deployment
pub mod Effective
pub mod DeviceIdentity
pub mod Tests
