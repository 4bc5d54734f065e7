-- ===== src/Minecraft.antt =====
-- internal/minecraft/ping.go: the status ping. A byte is a number below 256; what a connection
-- still has to give is a list of bytes, which ends where reading fails. An int32 is a bit pattern
-- below 2 ^ 32.
pub mod VarInt
pub mod Packet
pub mod Ping
mod Tests
