-- ===== src/Archives.antt =====
-- backend/substrapp/utils/tarsafe.py and safezip.py: the checks of an archive before its members are
-- extracted. A name is the list of its parts between the separators, a part the list of the codes of its
-- characters. The directory is the one that the process runs in, against which both files check.
pub mod Prefix
pub mod Escape
pub mod Requested
mod Examples
use substra_backend.Prelude.{
  ℕ, Bool, true, false, ◌&&◌, ◌||◌, not, ◌==◌, Option, none, some, List, [], ◌∷◌, ◌++◌,
  if◌then◌else◌,
}

abbrev pub slash : ℕ
slash = 47

abbrev pub dot : ℕ
dot = 46

abbrev pub Part : Type 0
Part = List ℕ

-- The name of a member: whether it begins with a separator, and its parts.
pub record MemberName : Type 0 where
  pub is_absolute : Bool
  pub parts : List Part

abbrev pub is_empty : Part → Bool
is_empty [] = true
is_empty _ = false

abbrev pub is_dot : Part → Bool
is_dot (c ∷ []) = c == dot
is_dot _ = false

abbrev pub is_dotdot : Part → Bool
is_dotdot (c ∷ d ∷ []) = (c == dot) && (d == dot)
is_dotdot _ = false

-- The parts without the last one; the parent of the root is the root.
abbrev pub drop_last : List Part → List Part
drop_last [] = []
drop_last (p ∷ []) = []
drop_last (p ∷ q ∷ ps) = p ∷ drop_last (q ∷ ps)

-- os.path.normpath of the parts below a normal directory
abbrev pub resolve : List Part → List Part → List Part
resolve base [] = base
resolve base (p ∷ ps) =
    resolve
      (if is_empty p || is_dot p
        then base
        else if is_dotdot p
        then drop_last base
        else base ++ (p ∷ []))
      ps

-- os.path.abspath(os.path.join(directory, name)), for a directory that is absolute and normal
unfoldable pub abspath : List Part → MemberName → List Part
abspath directory name = resolve (if name.is_absolute then [] else directory) name.parts

-- The text of an absolute path.
abbrev pub render_parts : List Part → List ℕ
render_parts [] = []
render_parts (p ∷ ps) = slash ∷ (p ++ render_parts ps)

abbrev pub render : List Part → List ℕ
render [] = slash ∷ []
render (p ∷ ps) = render_parts (p ∷ ps)

-- text.startswith(prefix)
abbrev pub starts_with : List ℕ → List ℕ → Bool
starts_with text [] = true
starts_with [] (c ∷ prefix) = false
starts_with (d ∷ text) (c ∷ prefix) = (d == c) && starts_with text prefix

-- _is_traversal_attempt, of both files
unfoldable pub is_traversal_attempt : List Part → MemberName → Bool
is_traversal_attempt directory name =
    not (starts_with (render (abspath directory name)) (render directory))

-- A device is a character or a block device, which `_is_device` looks for; a pipe is neither. The other
-- kinds, directories among them, are taken as regular.
pub data MemberKind : Type 0 where
  regular : MemberKind
  symlink : MemberKind
  hardlink : (linkname : MemberName) → MemberKind
  device : MemberKind
  fifo : MemberKind

pub record Member : Type 0 where
  pub name : MemberName
  pub kind : MemberKind

pub data ArchiveError : Type 0 where
  traversal_attempt : MemberName → ArchiveError
  unsupported_symlink : ArchiveError
  traversal_via_link : MemberName → ArchiveError
  unsupported_device : ArchiveError

-- The last three tests of `_safetar_check`, of one member.
unfoldable pub check_kind : List Part → MemberKind → Option ArchiveError
check_kind directory regular = none
check_kind directory symlink = some unsupported_symlink
check_kind directory (hardlink linkname) =
    if is_traversal_attempt directory linkname then some (traversal_via_link linkname) else none
check_kind directory device = some unsupported_device
check_kind directory fifo = none

-- The error that `_safetar_check` raises, if there is one.
unfoldable pub safetar_check : List Part → List Member → Option ArchiveError
safetar_check directory [] = none
safetar_check directory (m ∷ ms) =
    let rest = safetar_check directory ms in
    if is_traversal_attempt directory m.name
    then some (traversal_attempt m.name)
    else elim (check_kind directory m.kind) [ some e ↦ some e | none ↦ rest ]

-- `_sanity_check` of safezip.py
unfoldable pub sanity_check : List Part → List (MemberName × Bool) → Option ArchiveError
sanity_check directory [] = none
sanity_check directory ((name, is_symlink) ∷ ms) =
    let rest = sanity_check directory ms in
    if is_traversal_attempt directory name
    then some (traversal_attempt name)
    else if is_symlink
    then some unsupported_symlink
    else rest
