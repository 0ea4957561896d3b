-- ===== src/Http.antt =====
-- util/http.go: the HTTP client that the download workers share, and the counting that closes a
-- replaced transport once its last response has been read.
pub mod Requests
pub mod Closing
pub mod Requester
pub mod Reuse
pub mod IpPool
pub mod Sockets
mod Tests
