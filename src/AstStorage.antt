-- ===== src/AstStorage.antt =====
-- lib/AST/ASTMutationStorage.cpp: the hash under which a mutation is stored by line and column. A
-- failed assertion, and an overflow of `int`, which is undefined behaviour, are `none`.
mod Tests
pub mod Pairing
pub mod Mutations
pub mod Declarations
use mull.Base.{ℕ, ◌+◌, ◌*◌, ◌/◌, ◌^◌, Option, none, some, ◌||◌, leb, ◌==◌, if◌then◌else◌}

unfoldable pub line_column_hash : (line column : ℕ) → Option ℕ
line_column_hash line column =
    if (line == 0) || (column == 0)
    then none
    else if leb (2 ^ 31) ((line + column) * (line + column + 1))
    then none
    else some ((line + column) * (line + column + 1) / 2 + line)
