-- ===== src/Redaction.antt =====
-- internal/middleware/redaction.go: the redaction of personal data from request bodies.
mod Rules
mod Sort
mod Spans
mod Cover
mod Collect
mod Text
mod Masked
mod Rebuild
mod Shown
mod Number
mod Processor
mod Inspect
mod Parts
mod Structure
mod Json
mod Gate
mod Inspected
mod Candidate
mod Kept
mod KeptStructure
mod KeptJson
mod Answers
mod Decision
mod Written
mod Message
mod Sample
mod Tests
