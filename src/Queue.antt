-- ===== src/Queue.antt =====
-- internal/queue: the two queues between the webhook handler and the job processor.
pub mod Memory
pub mod Pubsub
