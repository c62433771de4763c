-- ===== src/Storage.antt =====
-- db/pgstorage: the tables and the SQL statements that the exit trees and the synchronizer use.
pub mod Chain
pub mod ExitRoots
pub mod Reads
pub mod Ready
pub mod Tables
pub mod Trees
