-- ===== src/Host.antt =====
-- kernel/src/host: the commands of the shell and the login shell that runs them.
pub mod Shell
pub mod Getty
