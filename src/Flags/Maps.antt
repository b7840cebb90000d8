-- ===== src/Flags/Maps.antt =====
-- The pairs of validateHosts as a Go map: a function from names to values.
use mathlib.Core.Path.{fun_ext, subst}
use d2vm.Base.{
  String, ◌≡◌, refl, ◌∙◌, true, false, Bool-cases, inl, inr, ◌==◌, ◌↔◌, Option, none, some, List,
  [], ◌∷◌, ok, Result-cases, All, eq_iff, if◌then◌else◌, arith,
}
use d2vm.Text.{cut}
use d2vm.Flags.{insert, host_entry, add_entries, validate_hosts}

-- The map that a list of pairs stands for.
abbrev pub find : List (String × String) → String → Option String
find [] p = none
find ((k, v) ∷ m) p = if k == p then some v else find m p

abbrev pub update : (String → Option String) → String → String → String → Option String
update f k v p = if k == p then some v else f p

find-insert_at :
    (k v p : String) (m : List (String × String)) → find (insert k v m) p ≡ update (find m) k v p
unfolding insert
find-insert_at k v p [] = refl
find-insert_at k v p ((j, w) ∷ m) =
    ground (find-insert_at k v p m, arith, eq_iff j k, eq_iff j p, eq_iff k p)

-- The assignment to a map's element is an update of the function.
pub find-insert :
    (k v : String) (m : List (String × String)) → find (insert k v m) ≡ update (find m) k v
find-insert k v m = fun_ext λ p. find-insert_at k v p m

abbrev IsNew : String → (String × String) → Type 0
IsNew k entry = (entry.0 == k) ≡ false

-- No name stands in two pairs.
abbrev pub NamesDiffer : List (String × String) → Type 0
NamesDiffer [] = Unit {0}
NamesDiffer ((k, v) ∷ m) = All (IsNew k) m × NamesDiffer m

insert-IsNew :
    (j k v : String) (m : List (String × String))
    → (k == j) ≡ false
    → All (IsNew j) m
    → All (IsNew j) (insert k v m)
unfolding insert
insert-IsNew j k v [] p a = (p, tt)
insert-IsNew j k v ((i, w) ∷ m) p (q, a) = elim (Bool-cases (i == k)) [
  | inl same ↦ rw same (p, a)
  | inr other ↦ rw other (q, insert-IsNew j k v m p a)
]

eq_sym : (j k : String) → (j == k) ≡ false → (k == j) ≡ false
eq_sym j k e = ground (arith, eq_iff j k, eq_iff k j)

All-IsNew_same :
    (j k : String) (m : List (String × String))
    → (j == k) ≡ true
    → All (IsNew j) m
    → All (IsNew k) m
All-IsNew_same j k m e a = subst (λ i. All (IsNew i) m) ((eq_iff j k).0 e) a

-- The names differ after the assignment, too.
insert-NamesDiffer :
    (k v : String) (m : List (String × String)) → NamesDiffer m → NamesDiffer (insert k v m)
unfolding insert
insert-NamesDiffer k v [] n = (tt, tt)
insert-NamesDiffer k v ((j, w) ∷ m) (a, n) = elim (Bool-cases (j == k)) [
  | inl same ↦ rw same (All-IsNew_same j k m same a, n)
  | inr other ↦ rw other (insert-IsNew j k v m (eq_sym j k other) a, insert-NamesDiffer k v m n)
]

-- The value that a flag `name:value` has for a name.
abbrev value_in : Option (String × String) → String → Option String
value_in none p = none
value_in (some (k, v)) p = if k == p then some v else none

abbrev or_else : Option String → Option String → Option String
or_else none o = o
or_else (some v) o = some v

-- What the flags say of a name: the last one that names it counts.
abbrev pub last_value : List String → String → Option String
last_value [] p = none
last_value (val ∷ vals) p = or_else (last_value vals p) (value_in (cut b':' val) p)

-- A flag that has a colon with a name before it.
abbrev pub IsEntry : String → Type 0
IsEntry val = (k : String) × (v : String) × (cut b':' val ≡ some (k, v)) × ((k == "") ≡ false)

host_entry-ok :
    (val : String) (o : Option (String × String)) (k v : String)
    → host_entry val o ≡ ok (k, v)
    → (o ≡ some (k, v)) × ((k == "") ≡ false)
unfolding host_entry
host_entry-ok val none k v e = absurd (cc)
host_entry-ok val (some (j, w)) k v e = ground arith

-- The list of pairs that add_entries builds, as a function.
Extends : List String → List (String × String) → List (String × String) → Type 0
Extends vals m out =
    ((p : String) → find out p ≡ or_else (last_value vals p) (find m p))
    × NamesDiffer out
    × All IsEntry vals

or_else-update :
    (o : Option String) (k v p : String) (m : List (String × String))
    → or_else o (find (insert k v m) p) ≡ or_else (or_else o (value_in (some (k, v)) p)) (find m p)
or_else-update (some x) k v p m = refl
or_else-update none k v p m = ground (find-insert_at k v p m, arith)

add_entries-Extends :
    (vals : List String) (m out : List (String × String))
    → NamesDiffer m
    → add_entries vals m ≡ ok out
    → Extends vals m out
unfolding add_entries Extends
add_entries-Extends [] m out n e = subst (Extends [] m) (cc) (λ p. refl, n, tt)
add_entries-Extends (val ∷ vals) m out n e = elim (Result-cases (host_entry val (cut b':' val))) [
  | inl ((k, v), p) ↦
      let (same, named) = host_entry-ok val (cut b':' val) k v p in
      let (found, differ, rest) =
        add_entries-Extends vals (insert k v m) out (insert-NamesDiffer k v m n) (ground arith) in
      (
        λ q. found q ∙ (rw same (or_else-update (last_value vals q) k v q m)),
        differ,
        ((k, v, same, named), rest),
      )
  | inr (x, p) ↦ ground arith
]

add_entries-accepts :
    (vals : List String) (m : List (String × String))
    → All IsEntry vals
    → (out : List (String × String)) × (add_entries vals m ≡ ok out)
unfolding add_entries host_entry
add_entries-accepts [] m h = (m, refl)
add_entries-accepts (val ∷ vals) m ((k, v, e, named), h) =
    let (out, p) = add_entries-accepts vals (insert k v m) h in
    (out, rw (e, add_entries) (rw (named, host_entry) p))

or_else-none : (o : Option String) → or_else o none ≡ o
or_else-none none = refl
or_else-none (some v) = refl

-- The map that validateHosts returns has no name twice, and gives each name the value of the last
-- flag for it.
pub validate_hosts-Refines :
    (vals : List String) (out : List (String × String))
    → validate_hosts vals ≡ ok out
    → (find out ≡ last_value vals) × NamesDiffer out
unfolding validate_hosts Extends
validate_hosts-Refines vals out e =
    let (found, differ, rest) = add_entries-Extends vals [] out tt e in
    (fun_ext λ p. found p ∙ or_else-none (last_value vals p), differ)

-- validateHosts accepts its flags exactly if each has a colon with a name before it.
pub validate_hosts-accepts :
    (vals : List String)
    → ((out : List (String × String)) × (validate_hosts vals ≡ ok out)) ↔ All IsEntry vals
unfolding validate_hosts Extends
validate_hosts-accepts vals =
    (λ r. (add_entries-Extends vals [] r.0 tt r.1).2, add_entries-accepts vals [])
