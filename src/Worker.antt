-- ===== src/Worker.antt =====
-- workers/realtime-relay/src/index.ts: the worker that relays the audio of a telephone call to a
-- realtime session of the model and back.
pub mod Messages
pub mod Authorization
pub mod Stream
pub mod Relay
pub mod Entry
