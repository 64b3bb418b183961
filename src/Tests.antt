-- ===== src/Tests.antt =====
-- The theorems at concrete inputs, and runs of the definitions.
mod Tcp
mod Buffer
mod MemPool
mod SqlQueue
mod CompletePort
mod UseCount
mod Udp
mod Receiver
mod GlobalFunc
mod Requests
