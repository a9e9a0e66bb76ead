-- ===== src/Tree.antt =====
-- The ordered tree of github.com/emirpasic/gods/trees/avltree, which the store and the static
-- routes use: the fields of a node that the store walks, and what the operations promise. The
-- package itself is not part of the repository, so its operations are a parameter; `chain` is one
-- that keeps the promises.
mod Entries
mod Chain
unfoldable pub use Entries.*
unfoldable pub use Chain.{chain}
