-- ===== src/Tests.antt =====
-- Concrete inputs: each headline theorem applied where its hypotheses hold, and runs.
mod Model
mod Dates
mod Cards
mod Money
mod Banks
mod Edits
mod Later
mod Movements
mod Interest
mod Texts
mod Timeline
mod Series
