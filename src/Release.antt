-- ===== src/Release.antt =====
-- os_release.go: Release, a text type with named values.
use d2vm.Base.{String}

abbrev pub Release : Type 0
Release = String

abbrev pub ubuntu : Release
ubuntu = "ubuntu"

abbrev pub debian : Release
debian = "debian"

abbrev pub alpine : Release
alpine = "alpine"

abbrev pub centos : Release
centos = "centos"

abbrev pub rhel : Release
rhel = "rhel"

abbrev pub kali : Release
kali = "kali"

abbrev pub rocky : Release
rocky = "rocky"

abbrev pub almalinux : Release
almalinux = "almalinux"
