-- ===== src/Tests.antt =====
-- Runs of the code at concrete inputs, and the properties at inputs that meet their hypotheses.
mod Streams
mod Answers
mod Events
mod Pools
mod Sockets
mod Sites
mod Servers
mod Listening
mod Samples
