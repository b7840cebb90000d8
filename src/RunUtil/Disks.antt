-- ===== src/RunUtil/Disks.antt =====
-- cmd/d2vm/run/util.go and vbox.go: the lists that the flags --disk and --networking build up.
pub mod Laws
use d2vm.Base.{ℕ, String, ◌<>◌, ◌||◌, ◌==◌, List, [], ◌∷◌, ◌++◌, Result, ok, err, if◌then◌else◌}
use d2vm.Text.{split, split_in_two}
use d2vm.Text.Numbers.{ℤ, pos}
use d2vm.Qemu.Config.{Disk}
use d2vm.RunUtil.Sizes.{get_disk_size_mb}

abbrev pub no_disk : Disk
no_disk = record { path = ""; size = pos 0; format = "" }

set_size : Disk → Result ℤ → Result Disk
set_size d (err e) = err e
set_size d (ok size) = ok (record d { size = size })

-- One part of the flag's value; SplitN gives one text or two.
disk_field : Disk → List String → Result Disk
unfolding set_size
disk_field d (path ∷ []) = ok (record d { path = path })
disk_field d (key ∷ value ∷ []) =
    if key == "file"
    then ok (record d { path = value })
    else if key == "size"
    then set_size d (get_disk_size_mb value)
    else if key == "format"
    then ok (record d { format = value })
    else err ("Unknown disk config: " <> key)
disk_field d _ = ok d

-- The loop over the parts of the flag's value; it stops at the first error.
module _ {D : Type 0} (field : D → List String → Result D) where
  next_field : Result D → String → Result D
  next_field (err e) p = err e
  next_field (ok d) p = field d (split_in_two b'=' p)

  fields : List String → Result D → Result D
  unfolding next_field
  fields [] r = r
  fields (p ∷ parts) r = fields parts (next_field r p)

append_disk : List Disk → Result Disk → Result (List Disk)
append_disk l (err e) = err e
append_disk l (ok d) = ok (l ++ (d ∷ []))

-- Disks.Set: the new value of the receiver.
unfoldable pub set_disks : List Disk → String → Result (List Disk)
unfolding disk_field fields append_disk
set_disks l value = append_disk l (fields disk_field (split b',' value) (ok no_disk))

pub record VbNetwork : Type 0 where
  pub type : String
  pub adapter : String

abbrev pub no_network : VbNetwork
no_network = record { type = ""; adapter = "" }

network_field : VbNetwork → List String → Result VbNetwork
network_field d (type ∷ []) = ok (record d { type = type })
network_field d (key ∷ value ∷ []) =
    if key == "type"
    then ok (record d { type = value })
    else if key == "adapter" || key == "bridgeadapter" || key == "hostadapter"
    then ok (record d { adapter = value })
    else err ("Unknown network config: " <> key)
network_field d _ = ok d

append_network : List VbNetwork → Result VbNetwork → Result (List VbNetwork)
append_network l (err e) = err e
append_network l (ok d) = ok (l ++ (d ∷ []))

-- VbNetworks.Set of vbox.go
unfoldable pub set_networks : List VbNetwork → String → Result (List VbNetwork)
unfolding network_field fields append_network
set_networks l value = append_network l (fields network_field (split b',' value) (ok no_network))

-- MultipleFlag.Set
unfoldable pub set_flag : List String → String → List String
set_flag f value = f ++ (value ∷ [])
