-- ===== src/Semantic.antt =====
-- embed.rs: the vectors of the current entries, and which update of a key may land.
pub mod Tickets
pub mod Steps
pub mod Issuing
pub mod Freshness
pub mod Landing
pub mod Cache
pub mod RoundTrip
pub mod Contents
mod Tests
