-- ===== src/Ssh.antt =====
-- backend/pkg/ssh: the authorized_keys file that enrolment and rotation write, the sudo rule, the
-- host keys, and handleRotateKey of backend/cmd/api/hosts_extra.go. The transport, the key pairs
-- and the remote shell's files are outside; a host is its file and what it answers.
pub mod Defs
pub mod Rotate
pub mod Lines
pub mod Keep
pub mod Bootstrap
pub mod Sudo
pub mod Enrolled
pub mod HostKeys
mod Tests
