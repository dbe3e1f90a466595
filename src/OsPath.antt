-- ===== src/OsPath.antt =====
-- What path.py uses of the standard library: `posixpath` and `PurePosixPath.parents`.
pub mod Normal
pub mod Climbs
pub mod Inside
pub mod Dirname
use shelf_back.Base.{
  ℕ, zero, suc, ◌≡◌, Bool, true, false, not, ◌&&◌, ◌||◌, Option, none, some, List, [], ◌∷◌, ◌++◌,
  map, length, drop, ltb, ◌==◌, if◌then◌else◌, keep_if, is_nil,
}
use shelf_back.Base.Text.{Text, codes, text_eq, has_prefix}

-- `sep`
abbrev pub slash : ℕ
slash = b'/'

abbrev pub is_slash : ℕ → Bool
is_slash c = c == slash

-- `s < t`, by code points
unfoldable pub text_lt : Text → Text → Bool
text_lt s [] = false
text_lt [] (b ∷ t) = true
text_lt (a ∷ s) (b ∷ t) = ltb a b || (a == b && text_lt s t)

-- `s.split("/")`
abbrev pub cons_head : ℕ → List Text → List Text
cons_head c [] = (c ∷ []) ∷ []
cons_head c (w ∷ ws) = (c ∷ w) ∷ ws

unfoldable pub split : Text → List Text
split [] = [] ∷ []
split (c ∷ s) = let rest = split s in if is_slash c then [] ∷ rest else cons_head c rest

-- `"/".join(words)`
unfoldable pub joined : List Text → Text
joined [] = []
joined (w ∷ []) = w
joined (w ∷ v ∷ ws) = w ++ (slash ∷ joined (v ∷ ws))

-- `initial_slashes` of `normpath`: POSIX gives exactly two leading slashes a meaning of their own.
unfoldable pub initial_slashes : Text → ℕ
initial_slashes s =
    if not (has_prefix (codes "/") s)
    then 0
    else if has_prefix (codes "//") s && not (has_prefix (codes "///") s)
    then 2
    else 1

abbrev pub slashes : ℕ → Text
slashes zero = []
slashes (suc n) = slash ∷ slashes n

abbrev pub is_dotdot : Text → Bool
is_dotdot w = text_eq w (codes "..")

-- A component that `normpath` and `PurePath` skip.
abbrev pub is_skipped : Text → Bool
is_skipped w = is_nil w || text_eq w (codes ".")

abbrev pub top_is_dotdot : List Text → Bool
top_is_dotdot [] = false
top_is_dotdot (w ∷ _) = is_dotdot w

-- The test under which `normpath` appends a component to `new_comps`.
abbrev pub is_kept : Bool → List Text → Text → Bool
is_kept rooted new_comps comp =
    not (is_dotdot comp) || ((not rooted && is_nil new_comps) || top_is_dotdot new_comps)

abbrev pub pop : List Text → List Text
pop [] = []
pop (_ ∷ ws) = ws

-- One round of the loop of `normpath`; `new_comps` is held last component first.
unfoldable pub push : Bool → List Text → Text → List Text
push rooted new_comps comp =
    if is_skipped comp
    then new_comps
    else if is_kept rooted new_comps comp
    then comp ∷ new_comps
    else pop new_comps

-- The loop.
unfoldable pub collapse : Bool → List Text → List Text → List Text
collapse rooted new_comps [] = new_comps
collapse rooted new_comps (comp ∷ comps) = collapse rooted (push rooted new_comps comp) comps

-- The words from last to first, then `acc`.
unfoldable pub rev_onto : List Text → List Text → List Text
rev_onto [] acc = acc
rev_onto (w ∷ ws) acc = rev_onto ws (w ∷ acc)

abbrev pub or_dot : Text → Text
or_dot s = if is_nil s then codes "." else s

-- `os.path.normpath`
unfoldable pub normpath : Text → Text
normpath path =
    if is_nil path
    then codes "."
    else let n = initial_slashes path in
      or_dot (slashes n ++ joined (rev_onto (collapse (ltb 0 n) [] (split path)) []))

abbrev pub ends_with_slash : Text → Bool
ends_with_slash [] = false
ends_with_slash (c ∷ []) = is_slash c
ends_with_slash (_ ∷ d ∷ s) = ends_with_slash (d ∷ s)

-- `os.path.join(a, b)`
unfoldable pub join : Text → Text → Text
join a b =
    if has_prefix (codes "/") b
    then b
    else if is_nil a || ends_with_slash a
    then a ++ b
    else a ++ (slash ∷ b)

-- `(p[:i], p[i:])` for `i = p.rfind("/") + 1`
unfoldable pub partition_last : Text → Text × Text
partition_last [] = ([], [])
partition_last (c ∷ s) =
    let (head, tail) = partition_last s in
    if is_nil head && not (is_slash c) then ([], c ∷ tail) else (c ∷ head, tail)

abbrev pub only_slashes : Text → Bool
only_slashes [] = true
only_slashes (c ∷ s) = is_slash c && only_slashes s

-- `s.rstrip("/")`
unfoldable pub strip_slashes : Text → Text
strip_slashes [] = []
strip_slashes (c ∷ s) =
    let rest = strip_slashes s in if is_nil rest && is_slash c then [] else c ∷ rest

-- `os.path.dirname` and `os.path.basename`
unfoldable pub dirname : Text → Text
dirname s =
    let head = (partition_last s).0 in if only_slashes head then head else strip_slashes head

unfoldable pub basename : Text → Text
basename s = (partition_last s).1

-- The names of a path, `[x for x in path.split("/") if x]`
unfoldable pub names : List Text → List Text
names [] = []
names (w ∷ ws) = let rest = names ws in if is_nil w then rest else w ∷ rest

-- `[".."] * (len(start) - i) + path[i:]`, where the first `i` names are those that both have
unfoldable pub relative : List Text → List Text → List Text
relative [] path = path
relative (w ∷ start) [] = codes ".." ∷ relative start []
relative (w ∷ start) (v ∷ path) =
    let rest = relative start path in
    if text_eq w v then rest else map (λ x. codes "..") (w ∷ start) ++ (v ∷ path)

-- `os.path.relpath` of a path that is not empty, in the working directory `cwd`
unfoldable pub relpath : Text → Text → Text → Text
relpath cwd path start = or_dot (
    joined (
      relative (names (split (normpath (join cwd start))))
        (names (split (normpath (join cwd path))))))

-- `os.path.splitext` of a text with no slash: the last dot splits, unless only dots stand before.
abbrev is_dot : ℕ → Bool
is_dot c = c == b'.'

-- The text before the last dot and the text from it on, if there is a dot.
unfoldable pub split_last_dot : Text → Option (Text × Text)
split_last_dot [] = none
split_last_dot (c ∷ s) = elim (split_last_dot s) [
  | some (a, b) ↦ some (c ∷ a, b)
  | none ↦ if is_dot c then some ([], c ∷ s) else none
]

abbrev pub only_dots : Text → Bool
only_dots [] = true
only_dots (c ∷ s) = is_dot c && only_dots s

unfoldable pub splitext : Text → Text × Text
splitext s = elim (split_last_dot s) [
  | none ↦ (s, [])
  | some (a, b) ↦ if only_dots a then (s, []) else (a, b)
]

-- The components of `PurePosixPath(s)` below its root.
unfoldable pub parts : Text → List Text
parts s = keep_if (λ w. not (is_skipped w)) (split s)

-- The proper prefixes of a list, the longest first.
unfoldable pub prefixes : List Text → List (List Text)
prefixes [] = []
prefixes (w ∷ ws) = map (λ ps. w ∷ ps) (prefixes ws) ++ ([] ∷ [])

-- `PurePosixPath(s).parents`, each as a `str`
unfoldable pub pure_parents : Text → List Text
pure_parents s = map (λ ws. or_dot (slashes (initial_slashes s) ++ joined ws)) (prefixes (parts s))
