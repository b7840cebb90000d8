-- ===== src/Builder.antt =====
-- builder.go: a disk image is made, mounted, filled, made bootable, unmounted and converted.
-- Defs has the state, New is NewBuilder, Disk and RootFs have the methods that Build calls, and
-- Build puts them together; the other modules are about them.
pub mod Defs
pub mod New
pub mod Disk
pub mod RootFs
pub mod Build
