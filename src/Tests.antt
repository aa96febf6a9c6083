-- ===== src/Tests.antt =====
-- The theorems at concrete inputs
mod MacrosTests
mod LogTests
mod MmTests
mod JpoolTests
mod FutexTests
mod WaitingTests
mod ShmTests
mod FileOpsTests
mod SocketsTests
mod AckTests
mod ChannelTests
mod SleepTests
mod TimelyTests
