-- ===== src/Driver.antt =====
-- The documents of a workspace, their owners and their dependencies: ServerDriver.cpp.
pub mod Trees
pub mod Dependencies
pub mod Documents
pub mod Opening
pub mod Handlers
pub mod Owners
pub mod Making
pub mod Refresh
pub mod Binding
pub mod Fuel
pub mod Adoption
pub mod Adopted
pub mod Known
pub mod Opened
pub mod Buffers
pub mod Saving
pub mod Watching
pub mod Serving
pub mod Samples
