-- ===== src/Lib.antt =====
-- The HTTP gateway of this repository: a request either goes to a configured service or to a
-- fallback origin; a provider may be asked first to admit it, and an admitted request may be
-- recorded, with one more attempt at the original origin.
--
-- The parts, and the files that model them:
-- - src/config.rs: Config, the route table with its compilation and selection. Config.Compilation
--   and Config.Selection are about what a compiled table is and what it selects.
-- - src/admission.rs: Messages (`AdmissionTicket`), Admission (tickets in headers, outcomes, the
--   registry of providers), with Admission.Tickets and Admission.Registration.
-- - src/gateway.rs and src/cors.rs: Gateway. `handle` follows `Gateway::handle` in order: `sanitize`,
--   the preflight, the rule that applies (`rule_for`), the acquisition (`admit`, `decide`), the
--   `dispatch`, and `publish`. Gateway.Building, Course, Requests, Responses,
--   Panics, Endings and Origins (the constructors of `OriginService`, `Gateway::new`) hold its properties.
-- - src/server.rs: Server, the limits of a listener and what is served, with Server.Limits.
-- - src/proxy.rs: Proxy.Headers (the header rules of a hop) and Proxy.Forward (one attempt at an
--   origin), with Laws beside each. Proxy.Headers.Nominations says which headers end at a hop, with the
--   readings of a header value in Tokens and Trimming; Proxy.Forward.Prepared and Attempts are about
--   what is sent, and Proxy.Waits bounds the waits.
-- - src/proxy/replay.rs: Proxy.Replay (recording and the retry) and Proxy.Replay.Body (the body that
--   is held in memory), with the ends of a recorded request in Replay.Laws and its calls in Replay.Sends.
-- - src/redis_admission/discovery.rs: Redis.Discovery, the guard of the recorder lookup, as a step
--   relation over all interleavings in Discovery.Guards.
-- - src/redis_admission/registration.rs: Redis.Registration (the address that is read) with Redis.Utf8
--   (`from_utf8` and `as_bytes`), and Registration.Recorder (`RecorderRegistration`), with Publishing.
-- - src/redis_admission/policy.rs: Redis.Policy (which paths are counted, and under which name), with
--   Policy.Rules and Policy.Selection; Policy.Store (`PolicyStore::load`), with Store.Loading. Store.Loaders
--   are loads of all clones of a provider that overlap in time, and Store.Order says what they leave.
-- - src/redis_admission.rs: Redis.Acquire, the acquisition of the shared slot with what it asks the
--   writer (Acquire.Slot, Course, Requests and Tickets), whose effects are `Ask`: the lease, the guard
--   of the lookup, the loaded policy, the writer, and random numbers. Redis.Provider is the
--   configuration (`with_ttl`, `with_gateway_limit`), Redis.Receiver the receiver's side (`complete`,
--   `renew`, `owns`), Redis.Replies how replies are read, and Redis.Scripts the Lua scripts COMPLETE and
--   RENEW with what they leave of the writer's keys.
--   Redis.Slots is the slots in use: any number of acquisitions of all gateways, with completions and
--   renewals, against one writer, with every interleaving. Slots.Grants, Tickets, Clients and Execution carry
--   its invariant, and Slots.Exclusion says what it means.
-- - src/redis_admission/lease.rs: Redis.Lease. `refresh` is one refresh as a program of effects,
--   Lease.Configuration the configuration and the start, with Lease.Starting. Lease.Safety says which
--   commands and which validity a refresh leads to. Lease.World is `run` for any number of gateways
--   against one writer, with every interleaving: commands that are late, replies that are lost,
--   refreshes that are cut off, time that passes, and other clients that change other keys. Invariant,
--   Preservation, Turns and Steps carry the invariant of each gateway through the steps, and Participation
--   says what it means for all of them. Lease.Progress is a refresh that nothing disturbs. Lease.Schedule is
--   the loop of one gateway in time, with its timeouts, `refresh_policy` and the waiting times; Renewal and
--   Timing say how long its validity lasts.
--
-- - src/gateway.rs with src/redis_admission.rs: Admitting. `handle_admitting` is `handle` where the
--   acquisition of a registered Redis provider runs, under its timeout, as part of the handling; every
--   command may be the one at which the time is over. Admitting.Cuts, Reservations and Protocol hold
--   what it does. Acquire.Guarding and Acquire.Granting are what they need of an acquisition;
--   Acquire.Taking is an acquisition that nothing disturbs, with the guard and the writer.
--
-- How they interact: what the asynchronous code awaits is an effect of Awaits, and a handler is an
-- interaction tree of Effects: `call` of an effect with the continuation of its answer. `Always`
-- states a property of the events and the result for every sequence of answers, `Calls` one of every
-- call, that is, whatever the providers, the services and the origins answer. A panic is a
-- call without an answer, which a predicate on calls allows or not. A timeout
-- is an answer. Effects.Interpretation runs a program with its effects expanded to programs, and
-- Effects.Monitors says that events obey a protocol. All handlers terminate: they make a bounded
-- number of calls, and no fuel is used.
--
-- The crates `http`, `hyper`, `brz-http-server`, `brz-http-cors`, `brz-http-router`, `brz-redis` and
-- `serde_json` are not part of the repository. External takes them as records of operations with
-- their documented behaviour as named laws; Tests.Demo gives concrete functions that satisfy them.
--
-- Numbers are those of Prim.Native.Nat. Header values and texts from outside are lists of bytes or
-- of code points where the code looks into them; times are milliseconds. `HeaderMap` is seen through
-- `get_all`, so the order between different names is forgotten. A pooled HTTP client has no state
-- that the gateway reads and is left out, as are debug output, logging and the bytes of a tunnel.
--
-- A limit is read as any number up to `most`, whose choice is free. On the way to the writer, a
-- command is executed at most once and not after a later command of the same gateway, as on one
-- connection; all gateways and the writer share the clock. A `usize` has 64 bits, and a number of 64
-- bits has 20 digits at most, so `show` writes out all of it. Redis.Execution executes what a program
-- sends at once, at one time; hashes are not among the keys of a `Writer`.
--
-- In Lease.Schedule, a timer is late by a bounded time, which also covers the rounding of
-- `Duration::mul_f64` and of times to milliseconds; a waiting time is any between its bounds.
--
-- The file system and the parser of `toml` are parameters of `load_routes`, which is `RoutesConfig::load`.
--
-- Not modelled: the accept loop of `brz-http-server`, and src/lib.rs (names passed on).
pub mod Prelude
pub mod External
pub mod Messages
pub mod Admission
pub mod Admitting
pub mod Effects
pub mod Config
pub mod Awaits
pub mod Proxy
pub mod Gateway
pub mod Server
pub mod Redis
pub mod Tests
