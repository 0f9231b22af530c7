-- ===== src/Worker.antt =====
-- internal/worker/worker.go: budgets and spacing, the requests, the submitter, the poller and the
-- finishing of a job.
pub mod Ending
mod Tests
pub mod Rows
pub mod Billing
pub mod Budget
pub mod Payload
pub mod World
pub mod Submit
pub mod Poll
