-- ===== src/Lib.antt =====
-- fast-tv-playout-core: the core of a live television channel.
--
-- The program. A schedule of entries (programs, bumpers, slates, ad breaks) stands in a store. The control API
-- replaces parts of it, or edits it on the air: an entry is put in and the rest shifted, or what plays is skipped.
-- On every tick the engine reads the schedule, plans the clips of the next seconds with the ad pods of a pod
-- source, writes the segments that are due, and publishes events through a hub when a segment goes on the air.
--
-- The files:
--   Base, Base/*           helpers: Boolean tests, lists and options over the native numbers, a stable sort, and
--                          integers with the wrap-around of 64 bits.
--   Clock                  what the program uses of Go's package time. An Instant counts the nanoseconds from year
--                          one, so that zero is the zero time; a Duration is a 64-bit integer of nanoseconds.
--   Model, Config          pkg/models/models.go (TimelineEntry, AdItem, ClipItem) and the settings in use of
--                          pkg/config/config.go.
--   Schedule               pkg/schedule/schedule.go. Entry, Edit, endOf; the errors Problem and ErrNothing are the
--                          constructors of Failure and Fault, their texts are left out.
--   Schedule/Check         Validate and CheckEntries; Check/Accepts says what they accept.
--   Schedule/Insert        InsertShift: cut_step is the body of its loop, finish_cut what follows the loop.
--   Schedule/Skip          Skip: pull_step is the body of its loop, finish_skip the rest.
--   Schedule/Air           the specification: the picture that a schedule puts on the air at a moment, and what an
--                          edit does to a schedule (everything that starts in its window is replaced).
--   Schedule/Split         how a moment divides a schedule.
--   Pods                   services/engine/ads.go: the interface podSource, a record of operations on a state.
--   Plan                   services/engine/plan.go: buildPlan and buildAdBreakQuanta, over any pod source. The plan
--                          reads the entries as they are in the schedule.
--   Hub                    pkg/events/events.go. A subscription is known by its place in the list of all of them;
--                          closed ones stay there and are passed over, as the map of the program drops them.
--   Hub/Streams            the hub with its clients as a relation of steps: publish, subscribe, read, close.
--   Announce               services/engine/events.go: announce and transition; an event is a constructor of Notice.
--   Failures               services/engine/events.go: sourceFailed; its map is a list of keys with their moments.
--   Scte35                 pkg/scte35/scte35.go: Encode, Decode, Out, In and Null, on lists of bytes. Scte35/Frame is
--                          about the frame and its check sum, Scte35/Command about the bytes of a splice_insert.
--   Cue                    services/control-api/commands.go: what the SCTE-35 handler makes of a message.
--   Command                services/control-api/commands.go: runCommand, with inserted and earliest. The clock, reading a
--                          time, trimming and printing JSON are a record Server. The closure that EditSchedule calls is
--                          the function decide; what it leaves in the variable `out` is given by out_of.
--   Store                  pkg/storage/api_store.go and pkg/storage/postgres.go: EditSchedule as a function on the rows of
--                          one channel. A statement of SQL is an operation on the rows, the constraints of the tables are
--                          tests, and an error leaves the rows as they were, as the rollback does. What a column of type
--                          jsonb makes of a text is a function of the database.
--   Filler                 services/engine/filler.go: fillBreak and bestSubset. Filler/Source is the state of staticFiller
--                          as an instance of Pods; Filler/Table, Subset and Order carry the proofs about bestSubset.
--   Fmp4                   pkg/fmp4/fmp4.go: the boxes; Fmp4/Init is ParseInit, Fmp4/Segment is walk, Fragments, Retime and
--                          MediaData. A file is a list of bytes. The test of the tolerance is a parameter.
--   Webhook                pkg/events/webhook.go: ParseEndpoints and deliver, for any answers of the receiver; Webhook/Line
--                          is push and the worker of one endpoint, select by select, as a relation of steps.
--   Keys                   pkg/auth/auth.go: Parse, Find, Allows and Require, for any operations on strings and any hash.
--   Broker                 services/engine/ads.go: adBroker, with the requests in flight as a relation of steps. An entry is
--                          known by its place in a store, since a request keeps the entry it was started for.
--   Stitch                 services/engine/stitch.go: the window and the state of the stitcher; Stitch/Tags has the markers of
--                          a break, Stitch/Files the files and their removal, Stitch/Add the function add.
--   Source                 services/engine/stitch.go: the resolver. Source/Blobs is storeBlob, Source/Lookup the map of
--                          addresses, allowed and the cache of playlists, Source/Prepared lookup and prepare.
--   Hls                    pkg/hls/hls.go: Parse over the lines of a playlist, and Attr, for any operations on strings.
--   Engine                 services/engine/engine.go: the state of the engine; Engine/Tick is tick with all that it calls, as
--                          one function of the state and of what the outside answers (Answers), and run is a list of
--                          ticks. The clips that a tick hands over are given back too, for the theorems.
--   */Tests                runs at concrete inputs.
--
-- Bounds. Most loops follow their lists. The loop of buildPlan follows the clock: it has as fuel the seconds that the
-- plan looks ahead, and a segment lasts a second, so that the fuel is never the reason to stop (Plan/Laws). The loop
-- that repeats a house creative has as fuel the seconds of the break, and a creative lasts a second at least
-- (Filler/Fills). The loop of children has as fuel the bytes of its range, and a box has eight at least (Fmp4/Tiling).
-- The loop of storeBlob has as fuel the files that are kept, and each turn removes one (Source/Bounded).
-- The loop of deliver counts its attempts down. Times from the program stay below 2^63 nanoseconds; where a theorem
-- needs that of its durations, it says so (IsSound in Schedule/Air: less than 2^31 seconds). The lengths of the filler
-- are seconds below 2^63, its sums wrap around.
--
-- Not modelled. The HTTP servers and clients, the metrics and the logs are I/O, and so are the queries of the store
-- on channels and assets and a failing connection. The downloads of the resolver, the text of the playlist, restoring
-- the window from it and the start of the engine are not modelled. Times are in UTC; formats of times and texts of
-- errors are left out.
pub mod Base
pub mod Clock
pub mod Model
pub mod Config
pub mod Pods
pub mod Plan
pub mod Hub
pub mod Hls
pub mod Schedule
pub mod Announce
pub mod Scte35
pub mod Cue
pub mod Failures
pub mod Filler
pub mod Command
pub mod Fmp4
pub mod Keys
pub mod Stitch
pub mod Source
pub mod Broker
pub mod Engine
pub mod Store
pub mod Webhook
