-- ===== src/Access.antt =====
-- The getters and setters of src/zproto_example.c.
pub mod Numbers
pub mod Strings
pub mod Owned
pub mod Written
pub mod StringFields
