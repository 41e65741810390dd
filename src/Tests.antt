-- ===== src/Tests.antt =====
-- Runs of the model on concrete inputs, and the properties at inputs that meet their hypotheses.
mod FloorSets
mod Calls
mod Drivers
mod Elevators
mod Queues
mod HeartBeats
mod Requests
mod Schedules
mod Sessions
mod Messages
mod Nodes
mod Locks
