-- ===== src/Strings.antt =====
-- String utilities of apt-pkg/contrib/strutl.cc. `Quote` is QuoteString and DeQuoteString, `Base64`
-- the two Base64 routines; QuoteLaws and Base64Laws have their proofs. `Order` is the comparisons,
-- `Split` and `Parts` the functions that cut a text, `Domains` CheckDomainList, `Affixes` Strip,
-- Startswith and Endswith, `Numbers` the readers of hexadecimal and base 256. `Words` is
-- ParseQuoteWord and ParseCWord, WordLaws and CWord have their
-- proofs. `Escapes` is DeEscapeString.
pub mod Quote
pub mod QuoteLaws
pub mod Base64
pub mod Base64Laws
pub mod Order
pub mod Split
pub mod Numbers
pub mod Parts
pub mod Affixes
pub mod Domains
pub mod Words
pub mod WordLaws
pub mod CWord
pub mod Escapes
mod Tests
