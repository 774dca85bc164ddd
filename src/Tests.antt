-- ===== src/Tests.antt =====
-- Concrete inputs: tests of the model, and each theorem with hypotheses applied where they hold.
mod Samples
mod Books
mod Tiers
mod Queues
mod Engines
mod Codecs
mod Frames
mod Loading
mod Requests
mod Sessions
mod Writers
