-- ===== src/Examples.antt =====
-- Tests and concrete uses of the theorems.
mod Data
mod Codecs
mod Pool
mod Stored
mod Opened
mod Messages
mod Peers
mod Node
mod Outside
