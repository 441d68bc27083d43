-- ===== src/Config/Path.antt =====
-- `PurePosixPath` of Python's standard library, as far as src/joinlint/config.py uses it.
use Prim.Native.String.{◌++◌}
use joinlint.Prelude.{
  String, Bool, false, not, ◌&&◌, ◌||◌, Option, none, some, List, [], ◌∷◌, if◌then◌else◌, ◌==◌,
  contains, is_empty, any, nat_eq,
}
use joinlint.Domain.Text.{codes}

pub record PurePosixPath : Type 0 where
  pub absolute : Bool
  pub parts : List String

abbrev push : String → List String → List String
push first [] = first ∷ []
push first (p ∷ ps) = (first ++ p) ∷ ps

-- `value.split("/")`
unfoldable pub split_slash : String → List String
split_slash String.[] = "" ∷ []
split_slash (String.◌∷◌ c s) =
    let rest = split_slash s in
    let first = String.◌∷◌ c String.[] in if first == "/" then "" ∷ rest else push first rest

-- Empty components and `.` are left out.
abbrev component : String → List String → List String
component part rest = if part == "" || part == "." then rest else part ∷ rest

unfoldable pub components : List String → List String
components [] = []
components (p ∷ ps) = component p (components ps)

abbrev starts_with_slash : String → Bool
starts_with_slash String.[] = false
starts_with_slash (String.◌∷◌ c s) = String.◌∷◌ c String.[] == "/"

-- `PurePosixPath(value)`
abbrev pub parse_path : String → PurePosixPath
parse_path value = record {
  absolute = starts_with_slash value;
  parts = components (split_slash value);
}

-- `"\x00" in value`
abbrev pub has_nul : String → Bool
has_nul value = any (λ c. nat_eq c 0) (codes value)

-- The test of `require_safe_relative_path` on a parsed path: its text is `.` when it has no parts.
abbrev pub safe_path : PurePosixPath → Bool
safe_path path =
    not path.absolute
    && not (is_empty path.parts)
    && not (contains ".." path.parts)
    && not (any has_nul path.parts)

-- From the last dot on.
unfoldable pub from_last_dot : String → Option String
from_last_dot String.[] = none
from_last_dot (String.◌∷◌ c s) = elim (from_last_dot s) [
  | some rest ↦ some rest
  | none ↦ if String.◌∷◌ c String.[] == "." then some (String.◌∷◌ c s) else none
]

abbrev suffix_from : Option String → String
suffix_from none = ""
suffix_from (some rest) = if rest == "." then "" else rest

-- The suffix of a name: a dot at its start or at its end does not count.
abbrev suffix_of_name : String → String
suffix_of_name String.[] = ""
suffix_of_name (String.◌∷◌ c s) = suffix_from (from_last_dot s)

-- `path.name`
abbrev name_of : List String → String
name_of [] = ""
name_of (p ∷ []) = p
name_of (p ∷ q ∷ ps) = name_of (q ∷ ps)

-- `path.suffix`
abbrev pub suffix : PurePosixPath → String
suffix path = suffix_of_name (name_of path.parts)

abbrev joined : List String → String
joined [] = ""
joined (p ∷ []) = p
joined (p ∷ q ∷ ps) = p ++ "/" ++ joined (q ∷ ps)

-- `path.as_posix()`
abbrev pub as_posix : PurePosixPath → String
as_posix path =
    if path.absolute
    then "/" ++ joined path.parts
    else if is_empty path.parts
    then "."
    else joined path.parts
