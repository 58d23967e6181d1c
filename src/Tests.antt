-- ===== src/Tests.antt =====
-- The theorems at concrete inputs, and runs of the model.
mod Table
mod Outputs
mod Wire
mod Queue
mod Serving
mod Clients
mod Confirming
mod Joining
mod Handling
mod Running
mod Mocking
mod Opening
mod Starting
