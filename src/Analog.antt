-- ===== src/Analog.antt =====
-- Analog expressions: piperine-lang/src/parse/ast.rs, the derivatives of
-- piperine-codegen/src/resolve/diff.rs, and the values that piperine-codegen/src/emit computes.
mod Bits
mod Ast
mod Operators
mod Constructors
mod Diff
mod Machine
mod Structural
mod Emit
mod Ideal
mod Folding
mod Walk
mod Keeps
mod Once
mod Derivative
mod Collected
mod Transport
mod Chain
mod Blocks
mod Calls
mod Names
mod Correct
mod Jacobian
mod Powers
mod Examples
