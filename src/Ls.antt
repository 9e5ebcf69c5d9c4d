-- ===== src/Ls.antt =====
-- The ls of Code/huqingwei/study_file/my_ls3.c: what it prints, as the names, the modes and the
-- directories that its functions come to. A name of a directory entry is a string; a directory is
-- the list of its entries, in the order of readdir.
pub mod Sorting
pub mod Mode
pub mod Missed
pub mod Options
use team_c.Common.{
  ℕ, zero, suc, ◌/◌, ◌%◌, ◌==◌, ltb, Bool, true, false, not, ◌&&◌, ◌||◌, List, [], ◌∷◌, ◌++◌,
  if◌then◌else◌,
}
use team_c.Common.Lists.{length, filter}
use team_c.Common.Text.{CStr, codes, streq}

-- strcmp(a, b) > 0
unfoldable pub is_greater : CStr → CStr → Bool
is_greater [] b = false
is_greater (x ∷ a) [] = true
is_greater (x ∷ a) (y ∷ b) = let rest = is_greater a b in if x == y then rest else ltb y x

-- The inner loop over j, with the rounds that are left: two neighbours are exchanged.
unfoldable pub pass : ℕ → List CStr → List CStr
pass zero names = names
pass (suc n) [] = []
pass (suc n) (x ∷ []) = x ∷ []
pass (suc n) (x ∷ y ∷ names) =
    let swapped = pass n (x ∷ names) in
    let kept = pass n (y ∷ names) in if is_greater x y then y ∷ swapped else x ∷ kept

-- The outer loop, with the rounds that are left: tmp - i of them.
unfoldable pub sort_rounds : ℕ → List CStr → List CStr
sort_rounds zero names = names
sort_rounds (suc n) names = sort_rounds n (pass n names)

unfoldable pub sort_names : List CStr → List CStr
sort_names names = sort_rounds (length names) names

abbrev pub is_hidden : CStr → Bool
is_hidden [] = false
is_hidden (x ∷ name) = x == b'.'

-- The names that bianli_dir_easy prints, and those of bianli_dir_easy_a2.
unfoldable pub easy_names : List CStr → List CStr
easy_names entries = filter (λ name. not (is_hidden name)) (sort_names entries)

unfoldable pub easy_a2_names : List CStr → List CStr
easy_a2_names entries = sort_names entries

-- st_mode & (1 << k)
abbrev pub has_bit : ℕ → ℕ → Bool
has_bit mode weight = (mode / weight) % 2 == 1

abbrev pub letter : ℕ → ℕ → ℕ → ℕ
letter mode weight c = if has_bit mode weight then c else b'-'

-- file_type[1] to file_type[9]
unfoldable pub permissions : ℕ → CStr
permissions mode =
    letter mode 256 b'r'
    ∷ letter mode 128 b'w'
    ∷ letter mode 64 b'x'
    ∷ letter mode 32 b'r'
    ∷ letter mode 16 b'w'
    ∷ letter mode 8 b'x'
    ∷ letter mode 4 b'r'
    ∷ letter mode 2 b'w'
    ∷ letter mode 1 b'x'
    ∷ []

-- The bits of st_mode that S_ISLNK, S_ISREG and S_ISDIR compare.
abbrev pub format_of : ℕ → ℕ
format_of mode = (mode / 4096) % 16

-- file_type[0]; `junk` stands in the array for the other kinds of files.
unfoldable pub kind_letter : ℕ → ℕ → ℕ
kind_letter junk mode =
    if format_of mode == 10
    then b'l'
    else if format_of mode == 8
    then b'-'
    else if format_of mode == 4
    then b'd'
    else junk

unfoldable pub file_type : ℕ → ℕ → CStr
file_type junk mode = kind_letter junk mode ∷ permissions mode

-- The path of an entry.
abbrev pub path_of : CStr → CStr → CStr
path_of dirname name = dirname ++ b'/' ∷ name

-- The loop of bianli_dir_R that collects directories: filepath is the path of a round, and is set
-- from dir_struct before readdir goes on.
unfoldable pub collect : (CStr → Bool) → CStr → CStr → List CStr → List CStr
collect is_dir dirname filepath [] = []
collect is_dir dirname filepath (name ∷ names) =
    let rest = collect is_dir dirname (path_of dirname name) names in
    if is_dir filepath then filepath ∷ rest else rest

-- The directories that bianli_dir_R lists, in order. A directory has an entry.
unfoldable pub dir_list : (CStr → Bool) → CStr → List CStr → List CStr
dir_list is_dir dirname [] = []
dir_list is_dir dirname (name ∷ names) =
    filter (λ path. not (streq path (codes "..")))
      (sort_names (collect is_dir dirname (path_of dirname name) (name ∷ names)))

-- The colour in which print_filename shows a name: it prints other kinds of files not at all.
pub data Colour : Type 0 where
  plain green blue red unshown : Colour

unfoldable pub print_filename : ℕ → Colour
print_filename mode =
    if format_of mode == 8
    then (if has_bit mode 64 then Colour.green else Colour.plain)
    else if format_of mode == 4
    then Colour.blue
    else if format_of mode == 10
    then Colour.red
    else Colour.unshown

-- The names that bianli_dir_l shows, and those of bianli_dir_al.
abbrev pub is_dots : CStr → Bool
is_dots name = streq name (codes ".") || streq name (codes "..")

unfoldable pub l_names : List CStr → List CStr
l_names entries = filter (λ name. not (is_dots name)) entries

unfoldable pub al_names : List CStr → List CStr
al_names entries = entries

-- The directories that bianli_dir_lR and bianli_dir_aR list; is_dir is about d_type here.
unfoldable pub sub_paths : (CStr → Bool) → CStr → List CStr → List CStr
sub_paths is_dir dirname [] = []
sub_paths is_dir dirname (name ∷ names) =
    let rest = sub_paths is_dir dirname names in
    if is_dir name && not (streq name (codes "..")) then path_of dirname name ∷ rest else rest

-- What main calls, and with which path.
pub data Listing : Type 0 where
  recursive l a2 al r_upper lr_upper ar_upper easy : CStr → Listing
  nothing : Listing

abbrev pub is_option : CStr → Bool
is_option [] = false
is_option (c ∷ arg) = c == b'-'

-- num > 0
unfoldable pub any_option : List CStr → Bool
any_option [] = false
any_option (arg ∷ args) = is_option arg || any_option args

-- The chain of tests on argv[1].
unfoldable pub by_option : CStr → CStr → Listing
by_option option path =
    if streq option (codes "-r")
    then Listing.recursive path
    else if streq option (codes "-l")
    then Listing.l path
    else if streq option (codes "-a")
    then Listing.a2 path
    else if streq option (codes "-al") || streq option (codes "-la")
    then Listing.al path
    else if streq option (codes "-R")
    then Listing.r_upper path
    else if streq option (codes "-lR") || streq option (codes "-Rl")
    then Listing.lr_upper path
    else if streq option (codes "-aR") || streq option (codes "-lR")
    then Listing.ar_upper path
    else Listing.nothing

abbrev pub path_or_here : List CStr → CStr
path_or_here [] = codes "."
path_or_here (path ∷ rest) = path

-- main, on the arguments behind argv[0], which is no option.
unfoldable pub listing : List CStr → Listing
listing [] = Listing.easy (codes ".")
listing (arg ∷ args) =
    if any_option (arg ∷ args) then by_option arg (path_or_here args) else Listing.easy arg
