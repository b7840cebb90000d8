-- ===== src/Dockerfile/Templates/Debian.antt =====
-- templates/debian.Dockerfile, section by section: text between two actions, or one conditional
-- action. The marker {{- has taken the white space in front of it.
use d2vm.Base.{◌==◌, not, List, [], ◌∷◌, String, if◌then◌else◌}
use d2vm.Dockerfile.{Dockerfile, grub}

unfoldable pub debian : Dockerfile → List (List String)
debian d =
    ("FROM " ∷ d.image ∷ " AS rootfs" ∷ "\n\nUSER root" ∷ [])
    ∷ (if d.release.version_id == "9"
        then ("\nRUN echo \"deb http://archive.debian.org/debian stretch main\" > /etc/apt/sources.list && \\"
            ∷ "\n    echo \"deb-src http://archive.debian.org/debian stretch main\" >> /etc/apt/sources.list && \\"
            ∷ "\n    echo \"deb http://archive.debian.org/debian stretch-backports main\" >> /etc/apt/sources.list && \\"
            ∷ "\n    echo \"deb http://archive.debian.org/debian-security stretch/updates main\" >> /etc/apt/sources.list && \\"
            ∷ "\n    echo \"deb-src http://archive.debian.org/debian-security stretch/updates main\" >> /etc/apt/sources.list"
            ∷ [])
        else [])
    ∷ ("\n\nRUN apt-get update && \\"
        ∷ "\n    DEBIAN_FRONTEND=noninteractive apt-get -y install --no-install-recommends \\"
        ∷ "\n      linux-image-amd64 && \\" ∷ "\n      find /boot -type l -exec rm {} \\;"
        ∷ "\n\nRUN ARCH=\"$([ \"$(uname -m)\" = \"x86_64\" ] && echo amd64 || echo arm64)\"; \\"
        ∷ "\n    DEBIAN_FRONTEND=noninteractive apt-get install -y --no-install-recommends \\"
        ∷ "\n      systemd-sysv \\" ∷ "\n      systemd \\" ∷ "\n      dbus \\"
        ∷ "\n      iproute2 \\" ∷ "\n      isc-dhcp-client \\" ∷ "\n      iputils-ping" ∷ [])
    ∷ (if grub d
        then ("\nRUN DEBIAN_FRONTEND=noninteractive apt install -y grub-common grub2-common" ∷ [])
        else [])
    ∷ (if d.grub_bios
        then ("\nRUN DEBIAN_FRONTEND=noninteractive apt install -y grub-pc-bin" ∷ [])
        else [])
    ∷ (if d.grub_efi
        then ("\nRUN ARCH=\"$([ \"$(uname -m)\" = \"x86_64\" ] && echo amd64 || echo arm64)\"; \\"
            ∷ "\n    DEBIAN_FRONTEND=noninteractive apt install -y grub-efi-${ARCH}-bin" ∷ [])
        else [])
    ∷ ("\n\nRUN systemctl preset-all" ∷ "\n\n" ∷ [])
    ∷ (if not (d.password == "")
        then ("RUN echo \"root:" ∷ d.password ∷ "\" | chpasswd " ∷ [])
        else [])
    ∷ ("\n\n" ∷ [])
    ∷ (if d.network_manager == "netplan"
        then ("\nRUN apt install -y netplan.io" ∷ "\nRUN mkdir -p /etc/netplan && printf '\\"
            ∷ "\nnetwork:\\n\\" ∷ "\n  version: 2\\n\\" ∷ "\n  renderer: networkd\\n\\"
            ∷ "\n  ethernets:\\n\\" ∷ "\n    eth0:\\n\\" ∷ "\n      dhcp4: true\\n\\"
            ∷ "\n      dhcp-identifier: mac\\n\\" ∷ "\n      nameservers:\\n\\"
            ∷ "\n        addresses:\\n\\" ∷ "\n        - 8.8.8.8\\n\\" ∷ "\n        - 8.8.4.4\\n\\"
            ∷ "\n' > /etc/netplan/00-netcfg.yaml" ∷ "\n" ∷ [])
        else (if d.network_manager == "ifupdown"
            then ("\nRUN if [ -z \"$(apt-cache madison ifupdown2 2> /dev/nul)\" ]; then apt install -y ifupdown; else apt install -y ifupdown2; fi"
                ∷ "\nRUN mkdir -p /etc/network && printf '\\" ∷ "\nauto eth0\\n\\"
                ∷ "\nallow-hotplug eth0\\n\\" ∷ "\niface eth0 inet dhcp\\n\\"
                ∷ "\n' > /etc/network/interfaces" ∷ "\n" ∷ [])
            else []))
    ∷ (if d.luks
        then ("\nRUN DEBIAN_FRONTEND=noninteractive apt-get install -y --no-install-recommends cryptsetup-initramfs && \\"
            ∷ "\n    echo \"CRYPTSETUP=y\" >> /etc/cryptsetup-initramfs/conf-hook && \\"
            ∷ "\n    update-initramfs -u -v" ∷ [])
        else [])
    ∷ ("\n\n# needs to be after update-initramfs" ∷ [])
    ∷ (if not (grub d)
        then ("\nRUN mv $(ls -t /boot/vmlinuz-* | head -n 1) /boot/vmlinuz && \\"
            ∷ "\n      mv $(ls -t /boot/initrd.img-* | head -n 1) /boot/initrd.img" ∷ [])
        else [])
    ∷ ("\n\nRUN apt-get clean && \\" ∷ "\n    rm -rf /var/lib/apt/lists/*" ∷ "\n\nFROM scratch"
        ∷ "\n\nCOPY --from=rootfs / /" ∷ "\n" ∷ [])
    ∷ []
