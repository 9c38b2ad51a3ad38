-- ===== src/HookFormat.antt =====
-- crates/cc-connect-core/src/hook_format.rs: the text that the hook prints for Claude Code. Budget
-- has the drop-oldest loop, Sanitize the two sanitizers, Mentions the `for-you` rule, Truncate the
-- cuts of the preamble, Line one chat line, and Render the whole payload.
pub mod Tests
pub mod Budget
pub mod Sanitize
pub mod Mentions
pub mod Truncate
pub mod Line
pub mod Render
