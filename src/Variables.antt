-- ===== src/Variables.antt =====
-- src/variables.cpp, include/variables.hpp: `Value` has the call variables, `Alloc` the tables that give
-- names their numbers, `Table` the tables of values that those numbers index.
pub mod Value
pub mod Alloc
pub mod Table
