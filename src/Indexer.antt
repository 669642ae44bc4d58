-- ===== src/Indexer.antt =====
-- The workspace index of include/Indexer.h and src/Indexer.cpp: which files declare a name, define a
-- macro and refer to a name, with the record of what each file contributed.
pub mod Defs
pub mod Consistency
mod Offers
pub mod History
mod Queries
pub mod Collect
mod Samples
