-- ===== src/Sinks/Http.antt =====
-- src/sinks/http: the endpoint that is configured, the construction of the sink, and what it makes of a
-- response.
pub mod Endpoint
pub mod Create
pub mod Socket
pub mod Response
pub mod Client
pub mod Tests
