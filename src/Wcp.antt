-- ===== src/Wcp.antt =====
-- include/wawo/net/wcp.hpp and src/net/wcp.cpp: WCP, a reliable byte stream over UDP. A control block
-- (WCB) is a record, each of its member functions a function on it; `none` is an assertion that
-- fails. The modules follow the functions of the source.
pub mod Flag
pub mod Pack
pub mod Types
pub mod Queue
pub mod Rtt
pub mod Net
pub mod Pump
pub mod Recv
pub mod Flights
pub mod Send
pub mod State
mod Tests
