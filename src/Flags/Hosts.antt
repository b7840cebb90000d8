-- ===== src/Flags/Hosts.antt =====
-- What validateHosts accepts.
use mathlib.Core.Path.{subst}
use d2vm.Base.{inl, inr, Bool-cases, All}
use d2vm.Base.{String, ◌≡◌, false, ◌==◌, Option, none, some, List, [], ◌∷◌, ok, Result-cases, arith}
use d2vm.Text.{cut}
use d2vm.Flags.{insert, host_entry, add_entries, validate_hosts}

abbrev pub HasName : (String × String) → Type 0
HasName entry = (entry.0 == "") ≡ false

insert-HasName :
    (k v : String) (m : List (String × String))
    → (k == "") ≡ false
    → All HasName m
    → All HasName (insert k v m)
unfolding insert
insert-HasName k v [] p a = (p, tt)
insert-HasName k v ((j, w) ∷ m) p (q, a) = elim (Bool-cases (j == k)) [
  | inl same ↦ rw same (p, a)
  | inr other ↦ rw other (q, insert-HasName k v m p a)
]

host_entry-HasName :
    (val : String) (o : Option (String × String)) (e : String × String)
    → host_entry val o ≡ ok e
    → HasName e
unfolding host_entry
host_entry-HasName val none e p = cc
host_entry-HasName val (some (k, v)) e p = ground arith

add_entries-HasName :
    (vals : List String) (m out : List (String × String))
    → All HasName m
    → add_entries vals m ≡ ok out
    → All HasName out
unfolding add_entries
add_entries-HasName [] m out a e = subst (All HasName) (cc) a
add_entries-HasName (val ∷ vals) m out a e = elim (Result-cases (host_entry val (cut b':' val))) [
  | inl (entry, p) ↦
      add_entries-HasName vals (insert entry.0 entry.1 m) out
        (insert-HasName entry.0 entry.1 m (host_entry-HasName val (cut b':' val) entry p) a)
        (ground arith)
  | inr (x, p) ↦ ground arith
]

-- Every host that validateHosts accepts has a name that is not empty.
pub validate_hosts-HasName :
    (vals : List String) (out : List (String × String))
    → validate_hosts vals ≡ ok out
    → All HasName out
unfolding validate_hosts
validate_hosts-HasName vals out e = add_entries-HasName vals [] out tt e
