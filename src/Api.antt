-- ===== src/Api.antt =====
-- api/rest/handler.go: the HTTP handlers as functions of what the router and the JSON decoder give
-- them. A handler that changes the node returns the new state with its answer. The chain, the
-- mempool and the wallet manager are not nil, as in server.go.
pub mod Response
pub mod Format
pub mod Queries
pub mod Pages
pub mod Submit
pub mod WalletCalls
mod Tests
