-- ===== src/Lists.antt =====
-- list.c: the pairs and lists of Scheme. Each loop over a list runs on fuel, one round for each pair
-- and one for the end; the length of the list and one more is enough.
pub mod Read
pub mod Build
pub mod Search
pub mod Basic
