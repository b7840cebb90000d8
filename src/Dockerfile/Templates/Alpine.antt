-- ===== src/Dockerfile/Templates/Alpine.antt =====
-- templates/alpine.Dockerfile, section by section: text between two actions, or one conditional
-- action. The marker {{- has taken the white space in front of it.
use d2vm.Base.{◌==◌, not, List, [], ◌∷◌, ◌++◌, String, text_lt, if◌then◌else◌}
use d2vm.Dockerfile.{Dockerfile, grub}

unfoldable pub alpine : Dockerfile → List (List String)
alpine d =
    ("FROM " ∷ d.image ∷ " AS rootfs" ∷ "\n\nUSER root" ∷ "\n\nRUN apk add --no-cache \\"
      ∷ "\n      util-linux \\" ∷ "\n      linux-virt \\" ∷ [])
    ∷ (if not (text_lt d.release.version_id "3.17")
        then ("\n      busybox-openrc \\" ∷ "\n      busybox-mdev-openrc \\"
            ∷ "\n      busybox-extras-openrc \\" ∷ "\n      busybox-mdev-openrc \\" ∷ [])
        else ("\n      busybox-initscripts \\" ∷ []))
    ∷ ("\n      openrc && \\" ∷ "\n      find /boot -type l -exec rm {} \\;"
        ∷ "\n\nRUN for s in bootmisc hostname hwclock modules networking swap sysctl urandom syslog; do rc-update add $s boot; done"
        ∷ "\nRUN for s in devfs dmesg hwdrivers mdev; do rc-update add $s sysinit; done" ∷ "\n\n"
        ∷ [])
    ∷ (if not (d.password == "")
        then ("RUN echo \"root:" ∷ d.password ∷ "\" | chpasswd " ∷ [])
        else [])
    ∷ ("\n\n" ∷ [])
    ∷ (if d.network_manager == "ifupdown"
        then ("\nRUN apk add --no-cache ifupdown-ng" ∷ "\nRUN mkdir -p /etc/network && printf '\\"
            ∷ "\nauto eth0\\n\\" ∷ "\nallow-hotplug eth0\\n\\" ∷ "\niface eth0 inet dhcp\\n\\"
            ∷ "\n' > /etc/network/interfaces" ∷ "\n" ∷ [])
        else [])
    ∷ ("\n\n" ∷ [])
    ∷ (if d.luks
        then ("\nRUN apk add --no-cache cryptsetup && \\"
            ∷ "\n    source /etc/mkinitfs/mkinitfs.conf && \\"
            ∷ "\n    echo \"features=\\\"${features} cryptsetup\\\"\" > /etc/mkinitfs/mkinitfs.conf && \\"
            ∷ "\n    mkinitfs $(ls /lib/modules)" ∷ [])
        else [])
    ∷ ("\n\n# we need to keep that at the end, because after it, we can't install packages without error anymore due to grub hooks"
        ∷ [])
    ∷ (if grub d
        then (("\nRUN apk add --no-cache  \\" ∷ [])
            ++ ((if d.grub_bios then ("\n    grub-bios \\" ∷ []) else [])
                ++ ((if d.grub_efi then ("\n    grub-efi \\" ∷ []) else [])
                    ++ (("\n    grub || true" ∷ [])))))
        else [])
    ∷ ("\n\nFROM scratch" ∷ "\n\nCOPY --from=rootfs / /" ∷ "\n" ∷ [])
    ∷ []
