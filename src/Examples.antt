-- ===== src/Examples.antt =====
-- Concrete inputs for the theorems, one module for each part of the sources.
mod Wire
mod Loop
mod Sessions
mod Users
mod Connections
mod Files
mod Requests
mod Machine
mod Clients
mod Programs
mod Threads
mod Suites
