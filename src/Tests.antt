-- ===== src/Tests.antt =====
-- Tests of the definitions, and the theorems at concrete inputs.
mod Device
mod Factory
mod Service
mod Http
mod Channel
mod Gst
mod Interop
mod Servers
