-- ===== src/Tests.antt =====
-- Runs of the program at concrete inputs, a module for each part of it.
mod Chunks
mod Queues
mod Senders
mod Outputs
mod Servers
mod Messages
mod Udp
mod Receivers
mod Clients
mod Threads
mod Setups
