-- ===== src/Rred.antt =====
-- Merging of ed-style patches: methods/rred.cc. `Changes` has the list of changes with its cursor and
-- the moves of the cursor and what the changes do to a file, `Delete`, `Merge`, `AddChange`, `ReadDiff` and
-- `WriteDiff` the operations; the other modules have the proofs.
pub mod Changes
pub mod Texts
pub mod Meaning
pub mod Sizes
pub mod Lines
pub mod Deleting
pub mod AddChange
pub mod Edits
pub mod Adding
pub mod Merged
pub mod Sequence
pub mod ReadLine
pub mod ReadDiff
pub mod Reading
pub mod WriteDiff
pub mod Script
pub mod FromEnd
pub mod Scripted
pub mod Written
pub mod Backwards
pub mod RoundTrip
pub mod ScriptTests
pub mod Cursor
pub mod Split
pub mod Seek
pub mod Merge
pub mod Delete
mod Tests
