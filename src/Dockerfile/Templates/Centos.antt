-- ===== src/Dockerfile/Templates/Centos.antt =====
-- templates/centos.Dockerfile, section by section: text between two actions, or one conditional
-- action. The marker {{- has taken the white space in front of it.
use d2vm.Base.{◌==◌, Bool, not, List, [], ◌∷◌, String, if◌then◌else◌}
use d2vm.Dockerfile.{Dockerfile, grub}

unfoldable pub centos : Bool → Dockerfile → List (List String)
centos is_vault d =
    ("FROM " ∷ d.image ∷ " AS rootfs" ∷ "\n\nUSER root" ∷ "\n\n" ∷ [])
    ∷ (if is_vault
        then ("\nRUN sed -i 's/mirrorlist/#mirrorlist/g' /etc/yum.repos.d/CentOS-* && \\"
            ∷ "\n    sed -i 's|#baseurl=http://mirror.centos.org|baseurl=http://vault.centos.org|g' /etc/yum.repos.d/CentOS-*"
            ∷ "\n" ∷ [])
        else [])
    ∷ ("\n\n# See https://bugzilla.redhat.com/show_bug.cgi?id=1917213" ∷ "\nRUN yum install -y \\"
        ∷ "\n    kernel \\" ∷ "\n    systemd \\" ∷ "\n    NetworkManager \\" ∷ "\n    e2fsprogs \\"
        ∷ "\n    sudo && \\" ∷ "\n    systemctl enable NetworkManager && \\"
        ∷ "\n    systemctl unmask systemd-remount-fs.service && \\"
        ∷ "\n    systemctl unmask getty.target && \\" ∷ "\n    mkdir -p /boot && \\"
        ∷ "\n    find /boot -type l -exec rm {} \\;" ∷ [])
    ∷ (if d.grub_bios then ("\nRUN yum install -y grub2" ∷ []) else [])
    ∷ (if d.grub_efi
        then ("\nRUN yum install -y grub2 grub2-efi-x64 grub2-efi-x64-modules" ∷ [])
        else [])
    ∷ ("\n\n" ∷ [])
    ∷ (if d.luks
        then ("\nRUN yum install -y cryptsetup && \\"
            ∷ "\n    dracut --no-hostonly --regenerate-all --force --install=\"/usr/sbin/cryptsetup\""
            ∷ "\n" ∷ [])
        else ("\nRUN dracut --no-hostonly --regenerate-all --force" ∷ "\n" ∷ []))
    ∷ ("\n\n" ∷ [])
    ∷ (if not (d.password == "")
        then ("RUN echo \"root:" ∷ d.password ∷ "\" | chpasswd " ∷ [])
        else [])
    ∷ (if not (grub d)
        then ("\nRUN cd /boot && \\" ∷ "\n        mv $(find / -name 'vmlinuz*') /boot/vmlinuz && \\"
            ∷ "\n        mv $(find . -name 'initramfs-*.img' -o -name initrd) /boot/initrd.img"
            ∷ [])
        else [])
    ∷ ("\n\nRUN yum clean all && \\" ∷ "\n    rm -rf /var/cache/yum" ∷ "\n\nFROM scratch"
        ∷ "\n\nCOPY --from=rootfs / /" ∷ "\n" ∷ [])
    ∷ []
