-- ===== src/Tests.antt =====
-- Small inputs, what the code does on them, and the theorems at them.
pub mod Sample
mod Groups
mod Colors
mod Graph
mod Python
mod Views
mod Loading
mod Drawn
mod Sanitized
mod Numbering
mod Edges
mod Scanner
mod RoundTrip
mod Owned
mod Split
mod Built
mod Menus
mod Lifecycle
