-- ===== src/Dockerfile/Templates/Ubuntu.antt =====
-- templates/ubuntu.Dockerfile, section by section: text between two actions, or one conditional
-- action. The marker {{- has taken the white space in front of it.
use d2vm.Base.{◌==◌, not, List, [], ◌∷◌, String, text_lt, if◌then◌else◌}
use d2vm.Dockerfile.{Dockerfile, grub}

unfoldable pub ubuntu : Dockerfile → List (List String)
ubuntu d =
    ("FROM " ∷ d.image ∷ " AS rootfs" ∷ "\n\nUSER root"
      ∷ "\n\nRUN ARCH=\"$([ \"$(uname -m)\" = \"x86_64\" ] && echo amd64 || echo arm64)\"; \\"
      ∷ "\n  apt-get update && \\"
      ∷ "\n  DEBIAN_FRONTEND=noninteractive apt-get -y install --no-install-recommends \\"
      ∷ "\n  linux-image-virtual \\" ∷ "\n  initramfs-tools \\" ∷ "\n  systemd-sysv \\"
      ∷ "\n  systemd \\" ∷ [])
    ∷ (if grub d then ("\n  grub-common \\" ∷ "\n  grub2-common \\" ∷ []) else [])
    ∷ (if d.grub_bios then ("\n  grub-pc-bin \\" ∷ []) else [])
    ∷ (if d.grub_efi then ("\n  grub-efi-${ARCH}-bin \\" ∷ []) else [])
    ∷ ("\n  dbus \\" ∷ "\n  isc-dhcp-client \\" ∷ "\n  iproute2 \\" ∷ "\n  iputils-ping && \\"
        ∷ "\n  find /boot -type l -exec rm {} \\;" ∷ "\n\n" ∷ [])
    ∷ (if text_lt "16.04" d.release.version_id
        then ("\nRUN systemctl preset-all" ∷ "\n" ∷ [])
        else [])
    ∷ ("\n\n" ∷ [])
    ∷ (if not (d.password == "")
        then ("RUN echo \"root:" ∷ d.password ∷ "\" | chpasswd " ∷ [])
        else [])
    ∷ ("\n\n" ∷ [])
    ∷ (if d.network_manager == "netplan"
        then ("\nRUN apt install -y netplan.io" ∷ "\nRUN mkdir -p /etc/netplan && printf '\\"
            ∷ "\nnetwork:\\n\\" ∷ "\n  version: 2\\n\\" ∷ "\n  renderer: networkd\\n\\"
            ∷ "\n  ethernets:\\n\\" ∷ "\n    eth0:\\n\\" ∷ "\n      dhcp4: true\\n\\"
            ∷ "\n      dhcp-identifier: mac\\n\\" ∷ "\n      nameservers:\\n\\"
            ∷ "\n        addresses:\\n\\" ∷ "\n        - 8.8.8.8\\n\\" ∷ "\n        - 8.8.4.4\\n\\"
            ∷ "\n' > /etc/netplan/00-netcfg.yaml" ∷ "\n" ∷ [])
        else (if d.network_manager == "ifupdown"
            then ("\nRUN if [ -z \"$(apt-cache madison ifupdown-ng 2> /dev/nul)\" ]; then apt install -y ifupdown; else apt install -y ifupdown-ng; fi"
                ∷ "\nRUN mkdir -p /etc/network && printf '\\" ∷ "\nauto eth0\\n\\"
                ∷ "\nallow-hotplug eth0\\n\\" ∷ "\niface eth0 inet dhcp\\n\\"
                ∷ "\n' > /etc/network/interfaces" ∷ "\n" ∷ [])
            else []))
    ∷ (if d.luks
        then ("\nRUN DEBIAN_FRONTEND=noninteractive apt-get install -y --no-install-recommends cryptsetup-initramfs && \\"
            ∷ "\n    update-initramfs -u -v" ∷ [])
        else [])
    ∷ ("\n\n# needs to be after update-initramfs" ∷ [])
    ∷ (if not (grub d)
        then ("\nRUN mv $(ls -t /boot/vmlinuz-* | head -n 1) /boot/vmlinuz && \\"
            ∷ "\n      mv $(ls -t /boot/initrd.img-* | head -n 1) /boot/initrd.img" ∷ [])
        else [])
    ∷ ("\n\nRUN apt-get clean && \\" ∷ "\n    rm -rf /var/lib/apt/lists/*" ∷ "\n\nFROM scratch"
        ∷ "\n\nCOPY --from=rootfs / /" ∷ "\n" ∷ [])
    ∷ []
