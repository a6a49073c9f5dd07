-- ===== src/Ir/Transform.antt =====
-- crates/laminaria-ir/src/transform: inlining every call of one function in the body of another. The
-- counter of fresh ids, which the source's closures capture by reference, is passed on and handed
-- back, and so is the table of an alpha-renaming. An index out of bounds is `panic`. The counter
-- wraps at 2^32, as the source's does in a build without overflow checks.
pub mod Result
pub mod Rename
pub mod Occurrences
pub mod Rewrite
pub mod AnfInsert
pub mod CheckedInline
pub mod Preserve
