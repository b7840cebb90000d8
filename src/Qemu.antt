-- ===== src/Qemu.antt =====
-- pkg/qemu: a virtual machine in QEMU.
pub mod Config
pub mod Disks
pub mod Net
pub mod Cmdline
pub mod Run
