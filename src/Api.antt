-- ===== src/Api.antt =====
-- service/bff/apis: the rule strategies over HTTP.
pub mod Controller
pub mod Refused
pub mod RoundTrip
