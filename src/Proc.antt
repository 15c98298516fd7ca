-- ===== src/Proc.antt =====
-- proc.c: processes and kernel threads. `Table` has the operations on one entry of the process
-- table, `Fork` the creation of processes and threads, `Exit` their end, `Join` the waits for it.
-- `none` is a panic or an access through a null pointer or outside an array.
pub mod Table
pub mod TableLaws
pub mod Fork
pub mod Init
pub mod ForkLaws
pub mod ForkReturns
pub mod Exit
pub mod ExitLaws
pub mod Join
pub mod JoinLaws
mod Tests
