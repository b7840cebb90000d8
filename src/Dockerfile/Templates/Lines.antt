-- ===== src/Dockerfile/Templates/Lines.antt =====
-- The lines that the templates have for what was asked for, and how they begin and end.
use text.Mathlib.TextLemmas.{append_assoc}
use d2vm.Base.{
  Among, String, ◌<>◌, ◌≡◌, refl, sym, ap, ◌∙◌, inl, inr, Bool, true, false, ◌==◌, Bool-cases, List,
  [], ◌∷◌,
}
use d2vm.Text.Pieces.{concat, flatten, Last, concat-Last}
use d2vm.Dockerfile.{
  Dockerfile, Template, ubuntu_template, debian_template, alpine_template, centos_template, grub,
}
use d2vm.Dockerfile.Templates.Alpine.{alpine}
use d2vm.Dockerfile.Templates.Centos.{centos}
use d2vm.Dockerfile.Templates.Debian.{debian}
use d2vm.Dockerfile.Templates.Ubuntu.{ubuntu}

-- The sections when the condition for CentOS is known.
abbrev pub of_template : Template → Bool → Dockerfile → List (List String)
of_template ubuntu_template old d = ubuntu d
of_template debian_template old d = debian d
of_template alpine_template old d = alpine d
of_template centos_template old d = centos old d

-- The line that installs what an encrypted root file system needs.
abbrev pub luks_line : Template → String
luks_line ubuntu_template =
    "\nRUN DEBIAN_FRONTEND=noninteractive apt-get install -y --no-install-recommends cryptsetup-initramfs && \\"
luks_line debian_template =
    "\nRUN DEBIAN_FRONTEND=noninteractive apt-get install -y --no-install-recommends cryptsetup-initramfs && \\"
luks_line alpine_template = "\nRUN apk add --no-cache cryptsetup && \\"
luks_line centos_template = "\nRUN yum install -y cryptsetup && \\"

-- The lines that install GRUB's programs for a BIOS and for EFI.
abbrev pub bios_line : Template → String
bios_line ubuntu_template = "\n  grub-pc-bin \\"
bios_line debian_template = "\nRUN DEBIAN_FRONTEND=noninteractive apt install -y grub-pc-bin"
bios_line alpine_template = "\n    grub-bios \\"
bios_line centos_template = "\nRUN yum install -y grub2"

abbrev pub efi_line : Template → String
efi_line ubuntu_template = "\n  grub-efi-${ARCH}-bin \\"
efi_line debian_template =
    "\n    DEBIAN_FRONTEND=noninteractive apt install -y grub-efi-${ARCH}-bin"
efi_line alpine_template = "\n    grub-efi \\"
efi_line centos_template = "\nRUN yum install -y grub2 grub2-efi-x64 grub2-efi-x64-modules"

abbrev pub password_line : String → String
password_line password = "RUN echo \"root:" <> (password <> ("\" | chpasswd " <> ""))

abbrev pub last_lines : String
last_lines = "\n\nFROM scratch\n\nCOPY --from=rootfs / /\n"

-- A section of the template with the line in it.
abbrev pub InSections : Template → Bool → Dockerfile → String → Type 0
InSections t old d line = (xs : List String) × Among xs (of_template t old d) × Among line xs

module _ (old : Bool) (d : Dockerfile) where
  pub luks-InSections : (t : Template) → d.luks ≡ true → InSections t old d (luks_line t)
  unfolding ubuntu debian alpine centos
  luks-InSections ubuntu_template e =
      (_, inr (inr (inr (inr (inr (inr (inr (inr (inr (inr (inl refl)))))))))), rw e ((inl refl)))
  luks-InSections debian_template e =
      (_, inr (inr (inr (inr (inr (inr (inr (inr (inr (inr (inl refl)))))))))), rw e ((inl refl)))
  luks-InSections centos_template e =
      (_, inr (inr (inr (inr (inr (inr (inl refl)))))), rw e ((inl refl)))
  luks-InSections alpine_template e =
      (_, inr (inr (inr (inr (inr (inr (inr (inl refl))))))), rw e (inl refl))

  pub bios-InSections : (t : Template) → d.grub_bios ≡ true → InSections t old d (bios_line t)
  unfolding grub ubuntu debian alpine centos
  bios-InSections ubuntu_template e = (_, inr (inr (inl refl)), rw e ((inl refl)))
  bios-InSections debian_template e = (_, inr (inr (inr (inr (inl refl)))), rw e ((inl refl)))
  bios-InSections centos_template e = (_, inr (inr (inr (inl refl))), rw e ((inl refl)))
  bios-InSections alpine_template e =
      (_, inr (inr (inr (inr (inr (inr (inr (inr (inr (inl refl))))))))), rw e (inr (inl refl)))

  pub efi-InSections : (t : Template) → d.grub_efi ≡ true → InSections t old d (efi_line t)
  unfolding grub ubuntu debian alpine centos
  efi-InSections ubuntu_template e = (_, inr (inr (inr (inl refl))), rw e ((inl refl)))
  efi-InSections debian_template e =
      (_, inr (inr (inr (inr (inr (inl refl))))), rw e (inr (inl refl)))
  efi-InSections centos_template e = (_, inr (inr (inr (inr (inl refl)))), rw e ((inl refl)))
  efi-InSections alpine_template e = (
    _,
    inr (inr (inr (inr (inr (inr (inr (inr (inr (inl refl))))))))),
    elim (Bool-cases d.grub_bios) [
      | inl bios ↦ rw bios (rw e (inr (inr (inl refl))))
      | inr none ↦ rw none (rw e (inr (inl refl)))
    ],
  )

  pub password-Among :
      (t : Template)
      → (d.password == "") ≡ false
      → Among ("RUN echo \"root:" ∷ d.password ∷ "\" | chpasswd " ∷ []) (of_template t old d)
  unfolding ubuntu debian alpine centos
  password-Among ubuntu_template e = inr (inr (inr (inr (inr (inr (inr (inl (rw e refl))))))))
  password-Among debian_template e = inr (inr (inr (inr (inr (inr (inr (inl (rw e refl))))))))
  password-Among alpine_template e = inr (inr (inr (inl (rw e refl))))
  password-Among centos_template e = inr (inr (inr (inr (inr (inr (inr (inr (inl (rw e refl)))))))))

-- The last section.
abbrev ending : Template → List String
ending ubuntu_template =
    "\n\nRUN apt-get clean && \\" ∷ "\n    rm -rf /var/lib/apt/lists/*" ∷ "\n\nFROM scratch"
    ∷ "\n\nCOPY --from=rootfs / /" ∷ "\n" ∷ []
ending debian_template =
    "\n\nRUN apt-get clean && \\" ∷ "\n    rm -rf /var/lib/apt/lists/*" ∷ "\n\nFROM scratch"
    ∷ "\n\nCOPY --from=rootfs / /" ∷ "\n" ∷ []
ending alpine_template = "\n\nFROM scratch" ∷ "\n\nCOPY --from=rootfs / /" ∷ "\n" ∷ []
ending centos_template =
    "\n\nRUN yum clean all && \\" ∷ "\n    rm -rf /var/cache/yum" ∷ "\n\nFROM scratch"
    ∷ "\n\nCOPY --from=rootfs / /" ∷ "\n" ∷ []

-- What stands in it before the second stage.
abbrev cleaning : Template → String
cleaning ubuntu_template = "\n\nRUN apt-get clean && \\\n    rm -rf /var/lib/apt/lists/*"
cleaning debian_template = "\n\nRUN apt-get clean && \\\n    rm -rf /var/lib/apt/lists/*"
cleaning alpine_template = ""
cleaning centos_template = "\n\nRUN yum clean all && \\\n    rm -rf /var/cache/yum"

module _ (old : Bool) (d : Dockerfile) where
  ending-Last : (t : Template) → Last (ending t) (of_template t old d)
  unfolding ubuntu debian alpine centos
  ending-Last ubuntu_template = refl
  ending-Last debian_template = refl
  ending-Last alpine_template = refl
  ending-Last centos_template = refl

  ending-cleaning : (t : Template) → concat (ending t) ≡ cleaning t <> last_lines
  ending-cleaning ubuntu_template = refl
  ending-cleaning debian_template = refl
  ending-cleaning alpine_template = refl
  ending-cleaning centos_template = refl

  unfoldable pub text_of : Template → String
  text_of t = concat (flatten (of_template t old d))

  pub beginning :
      (t : Template)
      → (rest : String) × (text_of t ≡ "FROM " <> (d.image <> (" AS rootfs" <> rest)))
  unfolding text_of ubuntu debian alpine centos
  beginning ubuntu_template = (_, refl)
  beginning debian_template = (_, refl)
  beginning alpine_template = (_, refl)
  beginning centos_template = (_, refl)

  pub end : (t : Template) → (front : String) × (text_of t ≡ front <> last_lines)
  unfolding text_of
  end t =
      let (front, e) = concat-Last (ending t) (of_template t old d) (ending-Last t) in
      (
        front <> cleaning t,
        e
            ∙ (ap (λ s. front <> s) (ending-cleaning t)
                ∙ sym (append_assoc front (cleaning t) last_lines)),
      )
