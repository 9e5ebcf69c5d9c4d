-- ===== src/Examples/Listings.antt =====
-- The theorems about my_ls3.c of Code/huqingwei/study_file at a few names and a mode.
use mathlib.Core.List.{Perm}
use team_c.Common.{some, ◌%◌, ◌≡◌, Bool, List, [], ◌∷◌, map}
use team_c.Common.Lists.{filter}
use team_c.Common.Text.{CStr, codes, streq}
use team_c.Ls.{sort_names, permissions, path_of, dir_list}
use team_c.Ls.Sorting.{IsSorted, sort_names-IsSorted}
use team_c.Ls.Mode.{octal_of, octal_of-permissions}
use team_c.Ls.Missed.{dir_list_lem}

abbrev some_names : List CStr
some_names = codes "lib" ∷ codes "doc" ∷ codes "src" ∷ codes "lib" ∷ []

sort_names-IsSorted_example :
    IsSorted (sort_names some_names) × Perm (sort_names some_names) some_names
sort_names-IsSorted_example = sort_names-IsSorted some_names

-- A file that its owner may read and write, and everybody else may read.
octal_of-permissions_example :
    octal_of 256 (codes "rwxrwxrwx") (permissions 33188) ≡ some (33188 % 512)
octal_of-permissions_example = octal_of-permissions 33188

abbrev is_source : CStr → Bool
is_source path = streq path (codes "./src")

-- The last entry, which is a directory, is not listed.
dir_list_lem_example :
    dir_list is_source (codes ".") (codes "." ∷ codes ".." ∷ codes "src" ∷ [])
    ≡ sort_names
        (filter is_source (map (path_of (codes ".")) (codes "." ∷ codes "." ∷ codes ".." ∷ [])))
dir_list_lem_example =
    dir_list_lem is_source (codes ".") (codes ".") (codes "src") (codes ".." ∷ [])
