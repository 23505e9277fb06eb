-- ===== src/Tests.antt =====
-- Runs of the methods on a small database.
mod Partners
mod Auth
mod Risk
mod Sample
mod Money
mod Worker
mod Tables
mod Poll
