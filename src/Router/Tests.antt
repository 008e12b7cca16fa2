-- ===== src/Router/Tests.antt =====
-- The parts of the server at concrete inputs.
mod Parts
mod Bodies
mod Handlers
mod Served
mod Whole
mod Replies
mod Writing
mod Slots
mod Costs
mod Clients
mod Embedded
