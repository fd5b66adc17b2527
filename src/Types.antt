-- ===== src/Types.antt =====
-- Data shared by the packages: packages/types, packages/publishers/src/types.ts and the outputs of
-- the agents. Texts are `String`; a date is the number of milliseconds of the epoch, in whose order
-- ISO texts are compared; a cost is in units of 1e-9 USD, the precision that the source keeps.
pub mod Brief
pub mod Usage
pub mod Publish
pub mod Article
