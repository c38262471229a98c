-- ===== src/Background.antt =====
-- metrique-writer/src/sink/background.rs: a bounded queue that many threads append to, and one
-- thread that drains it into a stream. `Waker` is the tracker of flush requests, `Receiver` the
-- methods of the background thread, `System` the queue, the tracker and the thread together.
pub mod Waker
pub mod Receiver
pub mod System
mod Tests
