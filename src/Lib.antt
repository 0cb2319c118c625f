-- ===== src/Lib.antt =====
-- A verification library for APTUM, a fork of APT, the package manager of Debian.
--
-- `Prelude` has shared names: tests on numbers, lists, integers, comparison results and the
-- comparison of padded lists. `Chars` has the character classes of apt-pkg/contrib/strutl.h; a text is
-- the list of its bytes, a pointer into a NUL-terminated text the list of the bytes from it to the NUL.
--
-- `Version` is apt-pkg/deb/debversion.cc. `Version.Fragment` is `order` and CmpFragment, one function for
-- each of its loops; its outer loop has the length of the left text and one for fuel, and each round
-- but the last takes a byte of it. `Version.Compare` is DoCmpVersion, where the bytes in memory before
-- the two texts are arguments, since the code can read them. `Version.Check` is CheckDep and
-- UpstreamVersion. `Version.Key` and `Version.Parts` are the references: the key of a fragment, and the
-- epoch, upstream version and revision of a version. `Version.Numbers`, `Version.Texts` and
-- `Version.Refines` relate CmpFragment to the keys, `Version.Pointers` and `Version.Total` relate
-- DoCmpVersion to the parts.
--
-- `Errors` is the error list of apt-pkg/contrib/error.h and apt-pkg/contrib/error.cc: its messages, the pending flag
-- and the stack of lists. vsnprintf is a parameter, and the retry loop of Insert has fuel, of which two
-- rounds are enough for the vsnprintf of ISO C. `Errors.Invariant` is about the flag, `Errors.Nesting`
-- about pushes and what closes them, `Errors.Insertion` about the retry loop and `Errors.Dump` about
-- the order of output.
--
-- `Strings` is apt-pkg/contrib/strutl.cc: `Strings.Quote` has QuoteString and DeQuoteString, `Strings.Base64` has
-- Base64Encode and Base64Decode, with their proofs in `Strings.QuoteLaws` and `Strings.Base64Laws`.
-- `Strings.Order` has stringcmp and stringcasecmp, `Strings.Split` Join, StringSplit and SubstVar, `Strings.Parts`
-- VectorizeString, `Strings.Domains` CheckDomainList, `Strings.Affixes` Strip, Startswith and Endswith, and
-- `Strings.Numbers` Hex2Num and Base256ToNum.
-- `Strings.Words` is ParseQuoteWord and ParseCWord, with proofs in `Strings.WordLaws` and `Strings.CWord`.
-- `Strings.Escapes` is DeEscapeString, with strtol as a parameter. `char` is signed. The loops of StringSplit and SubstVar have fuel, of which the length of the text, and one, is enough.
--
-- `Config` is the configuration tree of apt-pkg/contrib/configuration.h and apt-pkg/contrib/configuration.cc.
-- `Config.Items` has the items and Lookup, `Config.Access` Find, Exists, FindVector, Set, CndSet and Clear,
-- `Config.Walk` FullTag and Dump of the whole tree, whose loop has fuel, of which a round for each item, and one,
-- is enough. A pointer to an item is the list of the item and those behind it, and a change through a
-- pointer that Lookup returned is made where Lookup finds it. `Config.Lookups` and `Config.Stored` are about
-- what is found behind a change, `Config.Names` about names and `Config.Lists` about Clear of a value.
--
-- `Rred` is the patch merger of methods/rred.cc. `Rred.Changes` has Change, the list of changes of
-- FileChanges split at its cursor, the moves of the cursor, go_to_change_for and what
-- apply_against_file writes for a list of input lines without NUL bytes; the hashes, and a failure to
-- read or write, are left out. The loop of
-- go_to_change_for has fuel, of which as many rounds as there are changes, and one, are enough.
-- `Rred.Texts` is about skip_lines, `Rred.Meaning` about lists of changes with the same effect,
-- `Rred.Cursor`, `Rred.Split` and `Rred.Seek` about the cursor; `Rred.Delete` is
-- delete_lines, `Rred.Merge` is merge and `Rred.AddChange` is add_change. `Rred.Sizes`, `Rred.Lines`,
-- `Rred.Deleting`, `Rred.Edits` and `Rred.Merged` have lemmas on lines and sizes, `Rred.Adding` is about one call of
-- add_change and `Rred.Sequence` about several. `Rred.ReadLine` is
-- ReadLine of apt-pkg/contrib/fileutl.cc on the buffer of 2 ^ 19 bytes and `Rred.ReadDiff` read_diff, over parameters for strtoul, strtol
-- and the place of added text in memory, and `Rred.WriteDiff` is write_diff; `Rred.Reading` is about the text of an
-- edit that is read and `Rred.Script` about a whole patch, and `Rred.FromEnd`, `Rred.Scripted`, `Rred.Written`,
-- `Rred.Backwards` and `Rred.RoundTrip` are about a patch that is written. Sums of line
-- counts are taken to stay below 2 ^ 64, as those of real files do.
--
-- `Solver` is the search of the dependency solver, the class Solver of apt-pkg/solver3.h and apt-pkg/solver3.cc.
-- `Solver.Types` has its data and the order of work, `Solver.Propagate` Assume, Enqueue, AddWork and the two
-- Propagate, `Solver.Search` UndoOne, Pop and Solve, and `Solver.Register` the watches that RegisterClause
-- inserts. Clauses are values, and the fields of a clause that only explain it are left out. What watches
-- a literal, the virtual function Discover, the heap algorithms of the C++ library and the clock are a
-- parameter, `Interface`. Propagate and Solve have fuel, and a result of their own where it runs out;
-- that Solve has enough is not shown. The assertion of Enqueue leaves a mark where it fails, and Propagate aborts then.
-- `Solver.Model` says what a choice of packages must satisfy, `Solver.Invariant` what holds of every state
-- of the search, and `Solver.Clauses`, `Solver.Inference`, `Solver.Runs`, `Solver.Undo`, `Solver.Positions`,
-- `Solver.Refute` and `Solver.Answer` show that each operation keeps it. `Solver.Ending` is about the rounds
-- of Propagate, and `Solver.Order` about the order of work.
--
-- The process and file handling, the package cache, the making of clauses from it and the download
-- system are not modelled.
pub mod Prelude
pub mod Chars
pub mod Version
pub mod Config
pub mod Errors
pub mod Strings
pub mod Rred
pub mod Solver
