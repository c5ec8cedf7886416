-- ===== src/Conflict/Paths.antt =====
-- Go's `path` and `sort.Strings` on texts, and maps from paths to Booleans, as internal/conflict uses them.
use agent_trail.Base.{
  ℕ, Bool, true, false, ◌&&◌, ◌||◌, List, [], ◌∷◌, ◌++◌, ltb, ◌==◌, if◌then◌else◌, ◌≡◌, refl,
}
use agent_trail.Text.{codes}
use agent_trail.Chars.Defs.{Chars, same_chars, split, trim_right}

abbrev pub slash : ℕ
slash = b'/'

unfoldable pub join : Chars → List Chars → Chars
join sep [] = []
join sep (w ∷ []) = w
join sep (w ∷ v ∷ ws) = w ++ (sep ++ join sep (v ∷ ws))

-- The elements of a path, in reverse: "" and "." are dropped, and ".." takes away the element before it.
abbrev up : Bool → List Chars → List Chars
up rooted [] = if rooted then [] else codes ".." ∷ []
up rooted (w ∷ stack) = if same_chars w (codes "..") then codes ".." ∷ w ∷ stack else stack

unfoldable pub resolve : Bool → List Chars → List Chars → List Chars
resolve rooted stack [] = stack
resolve rooted stack (w ∷ ws) =
    resolve rooted
      (if same_chars w [] || same_chars w (codes ".")
        then stack
        else if same_chars w (codes "..")
        then up rooted stack
        else w ∷ stack)
      ws

unfoldable pub reversed {ℓ} : {A : Type ℓ} → List A → List A → List A
reversed acc [] = acc
reversed acc (x ∷ l) = reversed (x ∷ acc) l

abbrev pub rooted_path : Chars → Bool
rooted_path [] = false
rooted_path (c ∷ s) = c == slash

abbrev or_dot : Chars → Chars
or_dot [] = codes "."
or_dot (c ∷ s) = c ∷ s

-- path.Clean
unfoldable pub clean : Chars → Chars
clean s =
    let elements = join (slash ∷ []) (reversed [] (resolve (rooted_path s) [] (split slash s))) in
    if rooted_path s then slash ∷ elements else or_dot elements

-- The text up to the last slash, and after it.
unfoldable pub cut_last : Chars → Chars × Chars
cut_last [] = ([], [])
cut_last (c ∷ s) =
    let (dir, file) = cut_last s in
    if c == slash
    then (c ∷ dir, file)
    else elim dir [ [] ↦ ([], c ∷ file) | d ∷ ds ↦ (c ∷ d ∷ ds, file) ]

-- path.Dir
unfoldable pub path_dir : Chars → Chars
path_dir s = clean (cut_last s).0

abbrev or_slash : Chars → Chars
or_slash [] = slash ∷ []
or_slash (c ∷ s) = c ∷ s

-- path.Base
unfoldable pub path_base : Chars → Chars
path_base [] = codes "."
path_base (c ∷ s) = or_slash (cut_last (trim_right (λ d. d == slash) (c ∷ s))).1

-- The order of texts.
unfoldable pub chars_leb : Chars → Chars → Bool
chars_leb [] t = true
chars_leb (c ∷ s) [] = false
chars_leb (c ∷ s) (d ∷ t) = ltb c d || (c == d && chars_leb s t)

unfoldable pub insert_sorted : Chars → List Chars → List Chars
insert_sorted x [] = x ∷ []
insert_sorted x (y ∷ l) =
    let rest = insert_sorted x l in if chars_leb x y then x ∷ y ∷ l else y ∷ rest

-- sort.Strings
unfoldable pub sort : List Chars → List Chars
sort [] = []
sort (x ∷ l) = insert_sorted x (sort l)

-- A map to Booleans is the list of the keys that it maps to true, in no order that counts.
unfoldable pub has : Chars → List Chars → Bool
has x [] = false
has x (y ∷ l) = same_chars y x || has x l

abbrev pub add_key : List Chars → Chars → List Chars
add_key m x = if has x m then m else x ∷ m

unfoldable pub add_keys : List Chars → List Chars → List Chars
add_keys m [] = m
add_keys m (x ∷ l) = add_keys (add_key m x) l

unfoldable pub drop_key : Chars → List Chars → List Chars
drop_key x [] = []
drop_key x (y ∷ m) = let rest = drop_key x m in if same_chars y x then rest else y ∷ rest

dir_run : path_dir (codes "db/./migrations/../seed/one.sql") ≡ codes "db/seed"
unfolding path_dir clean cut_last resolve reversed join split same_chars
dir_run = refl

base_run : path_base (codes "apps/web/package.json") ≡ codes "package.json"
unfolding path_base cut_last trim_right
base_run = refl
