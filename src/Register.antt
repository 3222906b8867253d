-- ===== src/Register.antt =====
-- web/src/features/register: the dialog that registers a line, the register's table, and a line's record.
pub mod Add
pub mod Table
pub mod Page
pub mod Record
