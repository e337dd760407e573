-- ===== src/Output.antt =====
-- modules/implicit_output.cpp: the output tree over the vocabulary.
pub mod Inverse
pub mod Tree
