-- ===== src/Lib.antt =====
-- VoidSwitch is a gateway before many providers of language models: it keeps pools of their API
-- keys and of upstreams, and serves each request by trying upstreams and keys in turn until one
-- answers. This library models the logic of its Python backend (backend/voidswitch).
--
-- The parts and their files:
--
-- - Dispatcher (backend/voidswitch/services/dispatcher.py, _do_dispatch): the failover of one
--   request. Dispatcher has the rows and the local variables as records, Dispatcher/Answers what
--   one attempt does (try_key, with a handler for each class of answer), Dispatcher/Loops the
--   loops over rounds, keys and upstreams and the final reply (dispatch). The other files there
--   hold proofs: Rounds and Frame what an attempt leaves alone, Steps a rule for what holds
--   along a dispatch, Budget, Results, Replies and Blame what follows for a whole dispatch.
--   Chances, Survives and Others bound what other keys and upstreams cost, Served is about an
--   upstream that works, and Liveness about a dispatch that has one.
-- - Keys (backend/voidswitch/constants.py, backend/voidswitch/models/db.py): the statuses and
--   columns of a key. Keys/Changes (backend/voidswitch/services/dispatcher.py): how the
--   dispatcher disables, parks and rewards one.
-- - Selector (backend/voidswitch/services/selector.py): the order in which the keys of a
--   provider are tried (select_keys), with the Redis cursors and pins.
-- - UpstreamHealth (backend/voidswitch/services/upstream_health.py): the cooldowns of upstreams
--   (trip, reward).
-- - UpstreamHealth/Ranking (backend/voidswitch/services/upstream_health.py, rank): the order of
--   the upstreams of a route, which UpstreamHealth/Order and Behind are about.
-- - Providers (backend/voidswitch/services/providers): the class of an answer (classify, and
--   those of DeepSeek, xAI and Grok).
-- - Network (backend/voidswitch/services/network.py): the failover of one HTTP request over
--   outbound routes (execute_request). Routing (backend/voidswitch/services/routing.py): what an
--   attempt does to a node; Routing/Groups: the expansion of a group of nodes through
--   inheritance (collect_group), which Routing/Found, Reach, Walks and Expansion are about;
--   Routing/Choice: its routes in order.
-- - ErrorPolicy (backend/voidswitch/services/provider_error_policy.py): which errors are
--   shielded from a key, and the status expressions of its rules.
-- - RateLimit (backend/voidswitch/core/ratelimit.py) and SseGuard
--   (backend/voidswitch/core/sse.py): the Lua scripts over a Redis sorted set, which SortedSet
--   models, and the methods around them.
-- - Transform (backend/voidswitch/services/transform.py): server-sent events (Transform/Sse: iter_sse,
--   _sse, _data; Frames, Reading and RoundTrip hold the proofs), and the stream of an OpenAI
--   upstream for an Anthropic client (Transform/ToAnthropic: openai_stream_to_anthropic; Client is
--   what such a client keeps of a stream, Blocks, Following and Stream hold the proofs), and the
--   fold of an OpenAI stream into one completion (Transform/Folding and Folding/Built:
--   openai_events_to_response, with dicts over integers from Transform/Numbered; Told says what
--   the chunks tell a choice, Steps, Growth, Grown, Choices, Reads and Verdict hold the proofs).
-- - Access: who may call which models. Access/Roles has the roles of teams and of the platform, Access/
--   Groups the role groups (backend/voidswitch/services/role_groups.py: evaluate_auto_group_ids,
--   sync_auto_memberships, user_can_access_model), with proofs in Granted, Rows and Synced;
--   Access/Login is what a login does (backend/voidswitch/core/auth.py, upsert_user), and Rights
--   what the user may do after it.
-- - Base: Boolean tests, lists, sorting, results and JSON values that the others share.
--
-- The dispatcher uses the selector for the keys of an upstream, the error policy and the adapters'
-- classification for each answer, Keys/Changes for what the answer does to the key, and
-- UpstreamHealth for what it does to the upstream.
--
-- State is passed explicitly. Code outside of the repository and effects are parameters: the
-- clock, the credentials, the building of a request, one attempt and the translation of an answer
-- (Env of Dispatcher, over any type of worlds), sockets and
-- deadlines (Wire of Network), random choices (Rng of Selector, with the documented laws of
-- shuffle and choice), texts, dates and JSON decoding (TextLib, HeaderLib, PyText). Times are
-- microseconds since the epoch.
--
-- The loop over the rounds with one key is recursion on fuel, the attempts left of the budget;
-- each round makes one attempt, so the loop's own test of the budget ends it first. The other
-- loops are recursion on lists, and the expansion of a group is recursion on fuel, one more than
-- there are groups, since a path holds no group twice.
--
-- Not modelled: the statistics behind the scores of upstreams; the resolution of a model to its
-- route; the HTTP client; the other conversions between dialects; the relaying of streams; the
-- request log; OAuth exchanges, but for the time of the check that they write into a key's row;
-- texts with lone surrogates, which `encode` refuses; a cooldown of an upstream beyond the
-- calendar, which overflows; the HTTP endpoints and the database.
pub mod Base
pub mod Providers
pub mod Keys
pub mod Selector
pub mod ErrorPolicy
pub mod SortedSet
pub mod RateLimit
pub mod SseGuard
pub mod UpstreamHealth
pub mod Routing
pub mod Network
pub mod Dispatcher
pub mod Transform
pub mod Access
