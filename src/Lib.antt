-- ===== src/Lib.antt =====
-- d2vm turns a Docker image into a virtual machine image, and runs it.
--
-- Parts and files. The commands build and convert of cmd/d2vm (build.go, convert.go, main.go:
-- Commands) check the command line's flags (flags.go: Flags; what they are when the command
-- line is silent: Defaults), and either run d2vm in a container or call Convert. Convert of
-- convert.go (Convert) reads the image's distribution (os_release.go: OsRelease, Release),
-- writes a Dockerfile that adds a kernel (dockerfile.go: Dockerfile, with the texts of
-- templates/ in Dockerfile.Templates), builds it by docker (pkg/docker: Docker), asks
-- NewBuilder for a builder and runs its Build, and moves the finished disk to the output.
-- Builder has the files of builder.go: Defs the struct, New the function NewBuilder, Disk the
-- disk image with its loop device, partitions and mounts, RootFs the root file system and the
-- kernel command line, Build the method Build. The boot loaders of bootloader.go, syslinux.go
-- and grub*.go are in Bootloader, config.go in Config, fs.go in BootFs, docker_image.go in
-- Image with the script that it renders in Image.Script, convert_options.go in ConvertOptions,
-- container_disk.go in ContainerDisk, pkg/qemu_img in QemuImg. Files has MoveFile and block.
-- Text and its children have what the program uses of Go's packages strings, strconv and
-- path/filepath; Text.Pieces has texts that are put together from pieces.
--
-- The finished image is run by one of three commands of cmd/d2vm/run. qemu.go (RunQemu) passes
-- its flags as options to Run of pkg/qemu (Qemu): Config has the options and the record that
-- they fill, Disks and Net what Run completes, Cmdline the arguments of QEMU, Run the rest.
-- vbox.go is Vbox, hetzner.go is Hetzner, whose goroutines are Host.Routines. What the flags
-- have in common, of util.go, is in RunUtil, with Sizes for numbers and sizes, which are Go's
-- int and wrap around, Disks for the lists of disks and networks, and Progress for the reader
-- that counts.
--
-- The machine. Host (and pkg/exec) is the machine that d2vm runs on: each process and each system
-- call is an event of a log, newest first, with its outcome. What a call answers is a function of
-- everything that was done before, and any function will do, so that a theorem about every host
-- covers every failure at every place. An action is a function from a host and a world to a
-- result and a world; `deferring` is Go's defer, `handling` the test on an error, and a method's
-- object is the memory of the world. Host.Rules follows what is taken and given back along an
-- action, Host.Within does so where an error leaves something over, Host.Along where the names of
-- what is left stand in the memory, Host.Keeps follows what of the memory stays, Host.Covers
-- where more may be given back than was taken, Host.Debts where a clean-up goes on after an
-- error, Host.Yields and Host.Order follow the value and what an action has done when it
-- succeeds, Host.Stays what holds of a log from then on, Host.Healthy and Host.Gives the hosts
-- where nothing fails, and Host.Mounts and Host.Processes name the resources: the directory that
-- something is mounted on, the loop device that losetup prints, the device whose partitions are
-- mapped, the path of an opened encrypted partition, and processes that were started. What is
-- given back is counted by attempts, since the code logs the errors of its clean-ups and goes on.
-- Vbox.Quiet and Hetzner.Quiet name those of the two other commands. A goroutine (Host.Routines)
-- is a tree of calls that ends with what it sends to its channel; two of them are interleaved
-- call by call, in every order that a host may choose.
--
-- Bounds. Loops are structural, on lists and texts, or on the order of the natural numbers. Two
-- loops, dialSSHWithTimeout and the wait for the rebooted server, end when a timer runs off:
-- how many rounds it leaves is a number that the host answers, any number will do, and with
-- none left they end with the code's error. Sizes of disks are uint64 in the source and only
-- compared; the conversion to int64 before a file is truncated wraps around as in Go.
--
-- Not modelled. Log lines and the handler of signals; a context that is cancelled makes calls
-- fail, as a host may. Where the code ends the process by a fatal log line, the action ends
-- with that error, so that deferred functions still run in the model. What one goroutine of
-- runHetzner still does after an error of the other comes before what the caller does next, and
-- not after it; the goroutines of vbox are one call of the host, and the one that logs a
-- session's progress is left out. The error of a command over SSH is the text that the host
-- answers. Go's map of extra hosts is the list of its pairs in the order in which the loop
-- meets them; Flags.Maps has its view as a function. A template is the list of its sections:
-- text between two actions, or one conditional action; of an error, its place in the template
-- and what was written before it are left out. What encoding/json and hcloud return is read by
-- parameters; godotenv, datasize and multierr are fields of the host. `%q` is written without
-- escapes. The streams of QEMU, Windows, the parsing of the command line, the formatter of log
-- lines, and the checks for a terminal are not modelled.
pub mod Base
pub mod Text
pub mod Host
pub mod Docker
pub mod BootFs
pub mod Release
pub mod OsRelease
pub mod Config
pub mod Dockerfile
pub mod ConvertOptions
pub mod Bootloader
pub mod Files
pub mod Image
pub mod Builder
pub mod QemuImg
pub mod ContainerDisk
pub mod Convert
pub mod Flags
pub mod RunQemu
pub mod RunUtil
pub mod Qemu
pub mod Commands
pub mod Vbox
pub mod Hetzner
pub mod Defaults
mod Tests
