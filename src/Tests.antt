-- ===== src/Tests.antt =====
-- Concrete runs of the model, and the theorems at concrete inputs.
mod Data
mod Parsing
mod Protocol
mod Files
mod Requests
mod Sessions
mod Tool
mod Sockets
mod Serving
mod Mapping
mod Exchanges
mod Visitors
mod Rounds
mod Starts
