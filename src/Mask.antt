-- ===== src/Mask.antt =====
-- Matching of text against masks, and sets of masks: src/util.rs. `?` in a mask stands for one
-- character, `*` for any text. A slice inside a character panics in Rust, and is `panicked` here.
pub mod Glob
pub mod Match
pub mod Set
pub use Glob.{glob}
unfoldable pub use Match.{match_mask}
pub use Match.{Verdict, answer, panicked, out_of_fuel}
