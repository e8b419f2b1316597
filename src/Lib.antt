-- ===== src/Lib.antt =====
-- travelmap: a server that stores the points a user's tracker reports, and keeps two tables derived
-- from them: daily_stats, a row for each user and calendar day, and tracks, the movements between
-- longer pauses.
--
-- The parts and their files, with paths from the repository's root:
-- - Model, Model/Zone: internal/model (Point, Track, Coordinate, DailyStat, User), and time.Location
--   as a parameter with what the code relies on.
-- - Geo: internal/geo, over an interface of floating-point operations.
-- - Exec: how a call on internal/store runs. It is an action on a `World` (the database, whether a
--   transaction runs, the number of statements so far) in an `Env` (the clock, which statements fail,
--   whether the context is done). `statement` is one SQL statement, `tx` is DB.Tx of
--   internal/store/sqlite/sqlite.go. Exec/Ensures has the rules for what actions ensure, Exec/Atomic
--   what a transaction leaves when it fails.
-- - Store: the tables as one record. Store/Points, Store/DailyStats and Store/Tracks are
--   internal/store/sqlite/points.go, dailystats.go and tracks.go, one function for each method
--   (Create is `create`, NextTimestamp `next_timestamp`, Rebuild `rebuild`, ReplaceAll
--   `replace_all`, and so on), with each SQL statement as a function of the tables. Store/WellFormed
--   has the constraints of the schema.
-- - Ingest: internal/ingest. CreatePoints, UpdatePoint, DeletePoint and DeletePoints each write
--   points, rebuild the rows of daily_stats that the change affects (`rebuild_affected_days`) and
--   request a rebuild of the user's tracks, in one transaction. The files below it follow the proof
--   that the rebuilt days are enough: Unaffected (a day that is not rebuilt has the row it had),
--   Latest, Listing and Affected (the listed days), Changes and Change (what a statement changes),
--   Consistent and Sound.
-- - Track: internal/track. `build` splits a history into tracks, `rebuild_user` replaces a user's
--   tracks, `drain` is the worker's loop over the requests.
-- - Auth: `Register` of internal/auth/register.go with the credentials that internal/auth/auth.go and
--   NormalizeEmail of internal/model/user.go make. Store/Users, Store/Settings and Store/Sessions are
--   users.go, settings.go and sessions.go of internal/store/sqlite; Model/Settings is
--   internal/model/settings.go and session.go. Auth/Accounts has the invariant of the accounts,
--   Auth/Registered what `register` leaves. What net/mail, crypto/rand and bcrypt give is a parameter.
-- - Timeline: internal/timeline/trip.go, over Store/Trips (internal/store/sqlite/trips.go) and
--   Model/Trip (internal/model/trip.go).
-- - Store/FoursquareAccounts: internal/store/sqlite/foursquareaccounts.go, over
--   Model/FoursquareAccount (internal/model/foursquareaccount.go).
-- - Httpapi: the handlers of internal/httpapi. Httpapi/Dto has the shapes of internal/httpapi/dto,
--   Httpapi/Response the `api`, writeJSON and writeError, and `Handler`: an action on the database
--   that gives a response and never raises. Httpapi/Points, Tracks, Settings and Stats are points.go,
--   tracks.go, settings.go with users.go, and stats.go; Httpapi/Query is what they read of a query and
--   the headers of a page. Httpapi/Authenticate is auth.go, middleware.go and the reading of
--   session.go;
--   Httpapi/Accounts is login.go, api_session.go and api_users.go; Httpapi/OauthState is oauthstate.go.
--   Httpapi/Webhook is the webhook of foursquare.go.
--   Httpapi/Respects and Httpapi/Keeps have the rules for what a handler leaves of the database.
--   Ingest/Isolated and Ingest/Repeated have what the handlers need of internal/ingest.
-- - Foursquare: internal/foursquare (checkin.go, push.go, client.go). `walk` is the loop of
--   EachCheckinPage over what the API answers by the moment and the offset of a request;
--   Foursquare/Walked has its end, Foursquare/Kept what it leaves. Checkin is internal/checkin
--   (`write_push`, `sync`, `sync_all`), over Store/Checkins (internal/store/sqlite/checkins.go) and
--   Model/Checkin. Exec/Gives has the rules for what actions keep whatever they return.
-- - Config: internal/config/config.go. `load` makes a configuration of what the decoder made of the
--   file; Config/Told says what a file tells, Config/Overlaid and Config/Stored are the two ways
--   between them. The library's readers of levels, time zones and durations are parameters.
-- - Fixture: a concrete database, location and arithmetic, for the tests beside each part.
--
-- A time is a number of nanoseconds and a column of times holds whole seconds, so that storing a
-- time drops its fraction. A float is its bit pattern, and arithmetic on floats is a parameter. Ids
-- and counts, and the whole numbers among the settings, are natural numbers without a bound:
-- SQLite's run to 2 ^ 63. Time.Sub keeps its saturation at the greatest duration. A table is the
-- list of its rows in the order of insertion, and ORDER BY is a sort; a row that fails a foreign
-- key is refused. An id of an AUTOINCREMENT table comes from its sequence, which an INSERT that
-- turns into its ON CONFLICT advances too. The rows that theorems expect are written out beside them,
-- apart from the code that makes them.
--
-- `drain` runs on fuel, one unit for each request it takes, since each round takes one off the queue.
-- `walk` does too, one unit for each page: `each_checkin_page` gives it a page more than there are
-- seconds before the oldest check-in of the first page, since every page reaches further back.
--
-- In internal/httpapi an int or an id of a request is its 64 bits, so that a negative one is above
-- every bound, and sums and products that can leave 64 bits wrap around. A body is what decodeJSON
-- makes of it, none if that fails; time.Parse, strconv.FormatFloat, json.Encode and the session
-- manager are parameters.
--
-- Not modelled: the OAuth calls of internal/foursquare and the pages that make them;
-- templates, static files and the log of requests; JSON and nullable columns, whose scanning
-- is the identity of the model; logging. Concurrency is that of the database: SQLite has one
-- writer, so calls follow one another.
pub mod Base
pub mod Config
pub mod Foursquare
pub mod Checkin
pub mod Exec
pub mod Model
pub mod Geo
pub mod Store
pub mod Track
pub mod Httpapi
pub mod Ingest
pub mod Auth
pub mod Timeline
pub mod Fixture
