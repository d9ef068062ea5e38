-- ===== src/Tests.antt =====
-- Runs of the model on concrete inputs, and the theorems applied to them.
mod Headers
mod Flights
mod Wakes
mod Watches
mod Ends
mod Wires
mod Starts
mod Epolls
mod Requests
mod Lives
mod Keeps
mod Benches
mod Threads
mod Reactors
mod Syncs
mod Prints
mod Rows
