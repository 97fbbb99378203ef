-- ===== src/Examples.antt =====
-- The theorems at concrete inputs: cache.cpp in Stored, leotp.cpp in Sessions, udp_leotp.cpp in
-- Networks, the programs in Programs.
pub mod Stored
pub mod Sessions
pub mod Networks
pub mod Programs
