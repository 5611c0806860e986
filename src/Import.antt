-- ===== src/Import.antt =====
-- The roster import: front/components/use-roster-import-core.ts (rows, diff, bulk write),
-- front/components/use-roster-import-export.ts (JSON files) and
-- front/components/use-roster-import-vision.ts (screenshots).
pub mod Dedup
pub mod Preview
pub mod Execute
pub mod Json
pub mod File
pub mod Vision
mod Tests
