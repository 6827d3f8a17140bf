-- ===== src/Tests.antt =====
-- The sources' own tests on the model, and each result at an input.
pub mod Desk
mod Routing
mod Registering
mod Draining
mod Producing
mod Dispatching
mod Documents
mod Filtering
mod Connecting
mod Calling
mod Serving
mod Interleaving
mod Waiting
mod Passing
mod Sending
mod Sharing
