-- ===== src/Pipeline.antt =====
-- internal/pipeline: the buffer, the batcher with its workers, and the watermark of what is written.
pub mod Watermark
pub mod Buffer
pub mod Batcher
pub mod System
