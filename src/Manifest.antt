-- ===== src/Manifest.antt =====
-- internal/manifest/manifest.go: the table files that make up a database. The file MANIFEST stands
-- here for the state that encoding/json reads back from it, and its replacement, by a rename of a
-- synced file, succeeds and is one step. Names are bytes.
pub mod Names
use lsmdb.Base.{
  ℕ, zero, suc, ◌+◌, ◌-◌, List, [], ◌∷◌, ◌++◌, Option, none, some, Bool, true, false, ◌&&◌, ◌||◌,
  not, ◌==◌, ◌!=◌, ltb, leb, if◌then◌else◌, is_empty, length, drop, Result, ok, err,
}
use lsmdb.Memtable.{same_key}

abbrev pub version : ℕ
version = 2

abbrev pub legacy_version : ℕ
legacy_version = 1

pub record State : Type 0 where
  pub version_of : ℕ
  pub sstables : List (List ℕ)
  pub next_sst : ℕ
  pub applied_index : ℕ
  pub last_seq : ℕ

unfoldable pub is_legacy : State → Bool
is_legacy s = s.version_of == legacy_version

unfoldable pub new : State
new = record { version_of = version; sstables = []; next_sst = 0; applied_index = 0; last_seq = 0 }

pub data ManifestError : Type 0 where
  unsupported_version : ℕ → ManifestError
  invalid_name duplicate_name : List ℕ → ManifestError

abbrev pub slash : ℕ
slash = 47

-- The last element of a path that is not empty, after the part of one that was read.
unfoldable pub last_element : List ℕ → List ℕ → List ℕ
last_element part [] = part
last_element part (c ∷ cs) =
    let later = last_element [] cs in
    let longer = last_element (part ++ c ∷ []) cs in
    if c == slash then (if is_empty later then part else later) else longer

-- filepath.Base, with slashes.
unfoldable pub base : List ℕ → List ℕ
unfolding last_element
base path =
    let name = last_element [] path in
    if is_empty path then 46 ∷ [] else if is_empty name then slash ∷ [] else name

-- strings.HasSuffix
unfoldable pub has_suffix : List ℕ → List ℕ → Bool
unfolding same_key
has_suffix name suffix =
    leb (length suffix) (length name) && same_key (drop (length name - length suffix) name) suffix

-- .sst
abbrev pub extension : List ℕ
extension = 46 ∷ 115 ∷ 115 ∷ 116 ∷ []

unfoldable pub is_table_name : List ℕ → Bool
unfolding base has_suffix
is_table_name name =
    not (is_empty name || not (same_key (base name) name) || not (has_suffix name extension))

unfoldable pub is_seen : List ℕ → List (List ℕ) → Bool
is_seen name [] = false
is_seen name (n ∷ ns) = same_key n name || is_seen name ns

-- The loop of Validate over the names, with those before them.
unfoldable pub check_names : List (List ℕ) → List (List ℕ) → Option ManifestError
unfolding is_table_name is_seen
check_names seen [] = none
check_names seen (name ∷ names) =
    let rest = check_names (name ∷ seen) names in
    if not (is_table_name name)
    then some (invalid_name name)
    else if is_seen name seen
    then some (duplicate_name name)
    else rest

unfoldable pub validate : State → Option ManifestError
unfolding check_names
validate s =
    if s.version_of != version && s.version_of != legacy_version
    then some (unsupported_version s.version_of)
    else check_names [] s.sstables

-- What is found in the directory: nothing, or a state that is good.
unfoldable pub load : Option State → Result ManifestError (Option State)
load none = ok none
load (some s) = elim (validate s) [ none ↦ ok (some s) | some e ↦ err e ]

-- The state that is published.
unfoldable pub store : State → Result ManifestError State
store s =
    let state = record s { version_of = version } in
    elim (validate state) [ none ↦ ok state | some e ↦ err e ]
