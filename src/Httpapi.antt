-- ===== src/Httpapi.antt =====
-- internal/httpapi: the handlers of the HTTP API. A handler takes the user that the middleware
-- found, if any, and the request as it was decoded, and gives a response; it never raises.
pub mod Webhook
pub mod Dto
pub mod Response
pub mod Respects
pub mod Keeps
pub mod Query
pub mod Tests
pub mod Points
pub mod Tracks
pub mod Settings
pub mod Stats
pub mod Authenticate
pub mod OauthState
pub mod Accounts
