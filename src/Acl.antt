-- ===== src/Acl.antt =====
-- The access control lists of Assignment1/utils.c: a file named ".<name>.acl" beside each file. The
-- copies that strdup makes are taken to succeed, and no caller passes a null path.
pub mod Line
pub mod Checking
pub mod Setting
pub mod Creating
