-- ===== src/Lib.antt =====
-- The control plane of a panel for mobile proxies: each slot of a node holds a 4G dongle, and each
-- proxy leaves by the dongle of its slot. The panel keeps its rows in a store, compares what it wants
-- with what it sees, acts on the difference, and rotates the public address of a proxy on request.
--
-- The parts and how they meet:
--   * Domain (src/internal/domain): the rows and enumerations that all parts share. Domain/Slot
--     (slot.go, with config/ports.go) derives the addresses, rules, users and ports of a slot from its
--     number; Domain/Model (model.go), Domain/Enums (enums.go), Domain/Errors (errors.go) hold the data.
--     Domain/Addr is the part of net/netip that the program uses.
--   * Store/Operations (src/internal/store/repo_operation.go, migrations/0001_init.sql): the table of
--     operations, whose live rows serve as the lock of the system. A table is a list of rows; `create`,
--     `progress`, `finish`, `mark_stalled` and `reconcile_orphans` are the methods of operationRepo,
--     `clashes` the primary key and the partial unique index, `run` a history of calls.
--     Store/Operations/Listing is List with its filter (contract.go), Store/Rotations
--     (repo_rotation.go) the table of rotations, Store/Slots (repo_slot.go) that of slots, with
--     `attach`, `detach` and `next_free`, and Store/Usage (repo_usage.go) that of the traffic of a day.
--   * Reconcile (src/internal/reconcile): Reconcile/World (contract.go, world.go) is what a sweep sees,
--     Reconcile/Plan (plan.go) turns it into actions (Plan is `plan`, planSlot `plan_slot`, planProxy
--     `plan_proxy`, planRecovery `plan_recovery`), Reconcile/Budgets (world.go) loads the budgets that
--     Plan reads from the tables of the store (`load_budgets`), Reconcile/Generations (generation.go) notices
--     operations that begin while a sweep runs, and Reconcile/Actuator (actuator.go, and the loop of
--     Once in engine.go) carries the actions out over drivers that are parameters.
--   * Rotate (src/internal/rotate): Rotate/Policy (policy.go) is the ladder of holds, Rotate/Carrier
--     (carrier.go) chooses the policy of a mobile carrier, Rotate/Request
--     (rotate.go) takes a request on or refuses it (`rotate`, with `check_interval`, `check_conflict`
--     and RebootAllowed as `may_reboot`), Rotate/Run (rotate.go, verify.go) is a whole run of the
--     rotation: `execute`, `cycle`, `poll_conn` and the fence guard, over an outside world that answers
--     each call by any function of the calls before it, and Rotate/Finish (rotate.go) records its
--     result (finish is `finish_run`, escalateReboot `escalate`).
--   * Devops (src/internal/devops): from reboot.go, Devops/Service starts reboots (RebootAs is `reboot_as`,
--     RebootAuto `reboot_auto`, which the rotation takes as its Rebooter), Devops/Reboot runs one
--     (`run_reboot`) over an outside world like that of the rotation, and Devops/Watch is the loop that
--     waitDown, waitUp and pollConn share. Devops/Usage (usage.go) turns the counters of the dongles
--     into traffic by day (CollectUsage is `collect_usage`).
--   * Eventbus (src/internal/eventbus/bus.go, types.go): the bus that carries events to the readers of
--     the panel; `offer` is the loop of Publish for one subscriber. The other parts ignore its errors,
--     so that their models leave it out.
--   * Auth (src/internal/auth): Auth/Lockout (lockout.go) is the count of failed logins and the lock that
--     follows, with the table auth_lockout as a map; Auth/Keys (apikey.go, store.go) the API keys and link
--     tokens over their two tables; Auth/Sessions (session.go, csrf.go) the users and their sessions; and
--     Auth/Gate (middleware.go) RequireKey and RequireSession, which ask the last two before a handler
--     runs. Verify, Hash and the digest of a secret are parameters.
--   * Base/Text is what the program uses of Go's strings and strconv, on lists of ASCII bytes; Domain/Ports
--     reads and prints port ranges with it (model.go), and Auth its lists, names and tokens.
--
-- Numbers: times and counts of the rows are natural numbers; durations and counts of a policy are
-- integers, as they may be negative until they are validated; the generations keep their wrap at 64
-- bits and the third octet of an address its wrap at 8. Sums of times do not come near the end of
-- int64. The poll of the rotation has the fuel of one round for each interval of its budget and two
-- more, since each round sleeps for one interval; a poll without fuel ends in an error of its own. The
-- loops of a reboot have the same fuel.
--
-- Not modelled: the drivers themselves (netlink, nftables, 3proxy, the HiLink client), the HTTP
-- interface, hashing, cookies, the listings of keys, the Limiter, the poller, enrolment, the other
-- operations of devops (network mode, LAN address, SMS), the calendar, the other tables of the store,
-- the waiting for and shutting down of runs, and the texts of errors, notes and file names.
pub mod Base
pub mod Domain
pub mod Store
pub mod Reconcile
pub mod Rotate
pub mod Auth
pub mod Devops
pub mod Eventbus
