-- ===== src/FillPlanner.antt =====
-- packages/fill-planner: what a form is, what a page reader saw, and what will be typed. `lower`, an
-- argument throughout, is `toLowerCase`: the tables of Unicode's case conversion are not modelled.
pub mod Forms
pub mod Values
pub mod Inspect
pub mod Identity
pub mod Plan
pub mod Keys
pub mod Fingerprint
pub mod Reading
pub mod Chosen
pub mod Honesty
pub mod Honest
mod Examples
