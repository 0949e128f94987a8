-- ===== src/Lib.antt =====
-- RoadwiseFleet: a model of the core of a road haulage service, and its correctness.
--
-- The service keeps trips, and the requests on them are functions of apps/api/src that take the
-- database client as an argument. A trip moves through a lifecycle (trip-status.js); carriers and
-- drivers move it within their capabilities (auth/permissions.js, trip-visibility.js); drivers are
-- assigned to it (trip-assignment.js) and send positions while it is tracked (gps-ingest.js).
-- Loads are offered on a marketplace (marketplace.js), and an award creates the trip. A limiter
-- bounds the hits of a key (rate-limit.js). A customer without an account follows a trip, and opens
-- its documents, by a signed link (track-link.js, guest-share.js), and open pages are sent each new
-- position (gps-stream.js). After a delivery the two sides are asked, now and then, to review each
-- other (reviews.js). The customer is told of each step by a notification, which is written to a spool
-- that a shell script delivers (notifications.js, infra/scripts/pilot-notify-deliver.sh).
--
-- The parts and their files:
--   * Trip/Status and Trip/Disruption: the tables and predicates of trip-status.js. Statuses are a
--     data type; `narrow` finds one by its name, as `isTripStatus` does. Trip/Lifecycle and
--     Trip/Walk are about them.
--   * Trip/Tables: the rows that the requests touch. Trip/Client: the interface of the database
--     client (`TripsClient`), which is no code of the repository; its documented behaviour is the
--     record `IsLawful`. Trip/Memory is a client that has it.
--   * Trip/Requests (`transitionTrip`, `startTrip`), Trip/Create (`createTrip`), Trip/Assign
--     (`assignDriver`), Trip/Ingest (`ingestGpsPings`): each request is a check, a chain of guards
--     in the source's order that ends in a refusal or in what is to be written, and a commit, the
--     transaction; the request composes the two and returns the reply with the new tables.
--     Trip/Service lists the requests and runs them one after another. Trip/Race has two requests
--     whose checks both come first.
--   * Trip/Sound and the files below it: what holds of the tables between two requests. Trip/Rows:
--     lemmas on rows. Trip/Effects, Trip/Changes, Trip/Isolation, Trip/Refusals: what requests
--     change, and what not.
--   * Auth/Permissions, Auth/Visibility, Auth/Wildcards: capabilities.
--   * Gps/Points and Gps/Batch: `parseGpsPoint` and `parseGpsBatch`; Gps/Laws and Gps/Early are
--     about them.
--   * Limit/Window: `createRateLimiter` with its map as a list of entries in the order of
--     insertion; Limit/Bounds and Limit/Quota are about it.
--   * Market/States, Market/Award, Market/AutoMatch, Market/Isolation: the decisions of
--     marketplace.js and the offers' half of the award's transaction in routes/marketplace.ts.
--     Market/Settle and Market/Cheapest are about them. Market/Sweep: marketplace-sweep.js.
--     Market/Fields and Market/Forms: its forms; Market/Valid is about them. Market/Matching: its
--     filters, scores and rankings; Market/Ranking is about them.
--   * Otp/Code: the rules of the one-time codes of email-otp.js; Otp/Attempts is about them.
--   * Hub/Listeners: the fan-out of positions of gps-stream.js. Hub/Refinement compares it with a set
--     of subscriptions, over any sequence of calls; Hub/Delivery is about what is handed out.
--   * Share/Tokens: the tokens of auth/tokens.js; the encodings and the signature are the parameter
--     `Codec` with the laws `IsCodec`. Share/Subjects and Share/Links: the subjects and links of
--     track-link.js, Share/Windows the share window of a trip, Share/Tracked its public view,
--     Share/Urls the addresses, Share/Guests the documents of guest-share.js. Share/Routes: the
--     requests of routes/track.ts that mint, show, revoke and open a link, over the database client
--     `LinksClient` with the laws `IsLinksClient`. Share/Cuts and Share/Decimal: the operations on
--     text that these need. Share/RoundTrip, Share/Signed, Share/Opened, Share/Minted, Share/Scopes,
--     Share/Revoked, Share/Dead, Share/Shown and Share/Served are about them; Share/Plain and
--     Share/Memory are a codec and a client that have the laws.
--   * Review/Rules and Review/Requests: reviews.js, over the database client `ReviewsClient`; its laws
--     are `IsReviewsClient` in Review/Client, where the upsert and the update of a counter are taken
--     not to fail, and `StampsPrompts` in Review/Once. Review/Sampling, Review/Quota and Review/Once
--     are about them; Review/Memory is a client that has the laws.
--   * Docs/Names: the names and keys under which documents.js stores uploads; Docs/Safe and Docs/Keys
--     are about them. Docs/Access: who lists a trip's documents and sets their status. Docs/Capture
--     and Docs/Upload: the making of a document; Docs/Accepted and Docs/Stored are about it.
--   * Notify/Events, Notify/Contacts, Notify/Vars, Notify/Refs, Notify/Envelope, Notify/FileName,
--     Notify/Spool, Notify/Emit: notifications.js, from what a route has to the file in the spool.
--     The calls of the file system are the parameter `FileSystem`, with the laws `IsFileSystem`
--     (Notify/Files), where a write that does not throw is taken to be complete, and, where no call fails, `IsWorking` (Notify/Live). Notify/Reader: how the
--     shell script reads a file. Notify/Words, Notify/Lines, Notify/Contents, Notify/Gather, Notify/RoundTrip,
--     Notify/Atomic, Notify/Blank, Notify/Collected and Notify/Complete are about them;
--     Notify/Memory is a file system that has the laws.
--   * Filters/Query and Filters/Where: trip-filters.js; Filters/Statuses and Filters/RoundTrip are
--     about them. The built-in dates are the parameter `Dates` with the laws `IsDates`.
--   * Js: the values of request bodies. A finite number counts millionths, and the built-in
--     conversions are a parameter (`Runtime`, `DateParser`). Prelude: shared names and helpers.
--   * Tests: examples.
--
-- Every function is total: loops over bodies, rows and buckets recurse on the list, so no fuel is
-- needed; the digits of a number are printed on fuel, and Share/Decimal shows that its value is
-- enough; the words before a reference are dropped on fuel, and Notify/Words shows that one unit for
-- each character is enough; a write to the spool has the three rounds of the source. A transaction
-- is one step; requests interleave only where Trip/Race says so. A call of a database client is
-- taken to succeed, but where the source looks at its error; nothing is assumed of how a rate is
-- stored. A clock is an argument. An instant of a row counts milliseconds from the earliest date of
-- the language.
--
-- Not modelled: the routes but for the award's offers and a trip's link, the hooks that call the
-- emitter, the delivery by the shell script, the files of documents on disk, accounts, mail and
-- passwords, the user interfaces, and the read model of the marketplace.
pub mod Prelude
pub mod Js
pub mod Auth
pub mod Trip
pub mod Limit
pub mod Gps
pub mod Market
pub mod Tests
pub mod Otp
pub mod Hub
pub mod Share
pub mod Review
pub mod Docs
pub mod Notify
pub mod Filters
