-- ===== src/Bits.antt =====
-- Laws of `&`, `|` and `^` at variables: masks and disjoint fields at every width, and the group
-- laws of exclusive or.
pub mod Digit
pub mod Mask
pub mod Xor
