-- ===== src/Tests.antt =====
-- Concrete runs of the model and instances of its theorems.
pub mod Fixture
pub mod Steps
mod Transitions
mod Chains
mod Graphs
mod Policies
mod Texts
mod Versions
