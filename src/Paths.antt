-- ===== src/Paths.antt =====
-- Paths of the files that are backed up and restored: `TrimPathPrefix` of pkg/handlers/helper.go
-- and what is joined with it in pkg/storage/storage_backup.go, pkg/storage/storage_restore.go and
-- `FormatEndpoint`. `path.Join` and `path.Clean` are those of Go.
pub mod Places
pub mod Inside
mod Tests
use backup_server.Base.{
  ℕ, Bool, true, false, not, ◌&&◌, ◌||◌, List, [], ◌∷◌, ◌++◌, ◌==◌, if◌then◌else◌,
}
use backup_server.Base.Bytes.{Bytes, codes, bytes_eq, has_prefix, trim_prefix, split, join}

abbrev pub dot : Bytes
dot = codes "."

abbrev pub dots : Bytes
dots = codes ".."

abbrev pub is_skipped : Bytes → Bool
is_skipped c = bytes_eq c [] || bytes_eq c dot

-- A step up: at the root it stays there.
abbrev up : Bool → List Bytes → List Bytes
up true [] = []
up false [] = dots ∷ []
up rooted (c ∷ stack) = if bytes_eq c dots then dots ∷ c ∷ stack else stack

-- The elements of a path put on a stack, the last one first.
unfoldable pub walk : Bool → List Bytes → List Bytes → List Bytes
walk rooted stack [] = stack
walk rooted stack (c ∷ l) =
    walk rooted
      (if is_skipped c then stack else if bytes_eq c dots then up rooted stack else c ∷ stack) l

abbrev pub rev_onto : List Bytes → List Bytes → List Bytes
rev_onto [] out = out
rev_onto (c ∷ l) out = rev_onto l (c ∷ out)

abbrev relative : List Bytes → Bytes
relative [] = dot
relative (c ∷ l) = join (c ∷ l) b'/'

abbrev pub is_rooted : Bytes → Bool
is_rooted [] = false
is_rooted (c ∷ s) = c == b'/'

-- path.Clean of a text that is not empty.
unfoldable pub clean : Bytes → Bytes
unfolding walk
clean s =
    let parts = rev_onto (walk (is_rooted s) [] (split s b'/')) [] in
    if is_rooted s then b'/' ∷ join parts b'/' else relative parts

abbrev pub is_empty : Bytes → Bool
is_empty [] = true
is_empty (c ∷ s) = false

-- path.Join(a, b)
unfoldable pub path_join : Bytes → Bytes → Bytes
unfolding clean
path_join [] [] = []
path_join [] (c ∷ b) = clean (c ∷ b)
path_join (c ∷ a) [] = clean (c ∷ a)
path_join (c ∷ a) (d ∷ b) = clean (c ∷ a ++ b'/' ∷ d ∷ b)

-- Where a path leads: the first two results of TrimPathPrefix.
pub data Place : Type 0 where
  external cache home other : Place

abbrev pub with_slash : Bytes → Bytes
with_slash [] = codes "/"
with_slash (c ∷ []) = if c == b'/' then c ∷ [] else c ∷ codes "/"
with_slash (c ∷ d ∷ s) = c ∷ with_slash (d ∷ s)

abbrev pub external_prefix : Bytes → Bytes
external_prefix node = codes "/Files/External/" ++ (node ++ codes "/")

abbrev pub cache_prefix : Bytes → Bytes
cache_prefix node = codes "/Cache/" ++ (node ++ codes "/")

-- TrimPathPrefix, on the node of this name.
unfoldable pub trim_path_prefix : Bytes → Bytes → Place × Bytes
trim_path_prefix node p =
    let s = with_slash p in
    if has_prefix s (external_prefix node)
    then (external, trim_prefix s (external_prefix node))
    else if has_prefix s (cache_prefix node)
    then (cache, trim_prefix s (cache_prefix node))
    else if has_prefix s (codes "/Files/")
    then (home, trim_prefix s (codes "/Files/"))
    else (other, s)

-- The directories that hold the files: of the node's shares, of the caches and of the user.
pub record Roots : Type 0 where
  pub node : Bytes
  pub userspace : Bytes
  pub appcache : Bytes

abbrev pub root_of : Roots → Place → Bytes
root_of r external = codes "/shares"
root_of r cache = r.appcache
root_of r home = r.userspace
root_of r other = r.userspace

-- The path in the file system.
unfoldable pub real_path : Roots → Bytes → Bytes
unfolding trim_path_prefix path_join
real_path r p = let (place, rest) = trim_path_prefix r.node p in path_join (root_of r place) rest
