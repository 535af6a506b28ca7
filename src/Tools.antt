-- ===== src/Tools.antt =====
-- tools/: the programs that make a gateway's key pair and find a device's writes in a Bluetooth capture.
pub mod Snoop
pub mod Keygen
