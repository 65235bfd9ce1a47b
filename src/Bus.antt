-- ===== src/Bus.antt =====
-- code/src/io/bcast_bus.{h,cpp} and code/src/io/aes_ctr.h: the encrypted broadcast bus.
-- `Wire` is the datagrams and nonces, `Tx` the sending side for one target with its buffer of sent
-- fragments, `Retransmit` what a NACK leads to, `Witness`
-- the gap detector of third parties, `Rx` the receiving side for one sender. Sequence
-- numbers wrap at 32 bits; the counters of the receiving side are unbounded numbers. The mutexes
-- make each handler one step; printing and sleeping are left out.
pub mod Wire
pub mod Rx
pub mod Tx
pub mod Retransmit
pub mod Nack
pub mod Dispatch
pub mod Witness
mod Tests
