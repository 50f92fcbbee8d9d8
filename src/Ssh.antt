-- ===== src/Ssh.antt =====
-- What the two SSH providers share, providers/linuxssh/linuxssh.go and providers/windowsssh/
-- windowsssh.go: the connection, the counters and the GPU reports. Functions that stand in both files
-- in the same words are modelled once.
pub mod Connection
pub mod Counters
pub mod Gpus
pub mod Auth
