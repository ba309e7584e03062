-- ===== src/DataChannel/Client.antt =====
-- The session of the libdatachannel client: its callbacks, the promise that they settle, and the wait
-- at the end of main (libdatachannel/client.cpp, lines 93 to 194).
pub mod Promise
pub mod Session
pub mod Verdict
pub mod Reports
pub mod Late
pub mod Program
