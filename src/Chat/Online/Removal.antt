-- ===== src/Chat/Online/Removal.antt =====
-- Which node del_node takes out of the list of users online.
use team_c.Common.{ℕ, ◌≡◌, ◌≢◌, List, [], ◌∷◌, ◌++◌, arith}
use team_c.Common.Lists.{All}
use team_c.Chat.World.{UserDate}
use team_c.Chat.Online.{unlink_after, del_node}

abbrev pub IsElsewhere : ℕ → UserDate → Type 0
IsElsewhere fd u = u.socket ≢ fd

unlink_after-found :
    (fd : ℕ) (current : UserDate) (xs : List UserDate) (c : UserDate) (ys : List UserDate)
    → IsElsewhere fd current
    → All (IsElsewhere fd) xs
    → c.socket ≡ fd
    → unlink_after fd current (xs ++ c ∷ ys) ≡ current ∷ (xs ++ ys)
unfolding unlink_after
unlink_after-found fd current [] c [] n h e = ground arith
unlink_after-found fd current [] c (y ∷ ys) n h e = ground arith
unlink_after-found fd current (x ∷ xs) c ys n h e =
    ground (arith, unlink_after-found fd x xs c ys h.0 h.1 e)

unlink_after-missing :
    (fd : ℕ) (current : UserDate) (xs : List UserDate) (c : UserDate)
    → IsElsewhere fd current
    → All (IsElsewhere fd) xs
    → unlink_after fd current (xs ++ c ∷ []) ≡ current ∷ xs
unfolding unlink_after
unlink_after-missing fd current [] c n h = ground arith
unlink_after-missing fd current (x ∷ xs) c n h =
    ground (arith, unlink_after-missing fd x xs c h.0 h.1)

-- A socket that is neither the first nor the second user's online, but a later one's: del_node
-- takes out the first node of the socket, and no other.
pub del_node-third :
    (fd : ℕ) (a b c : UserDate) (xs ys : List UserDate)
    → IsElsewhere fd a
    → IsElsewhere fd b
    → All (IsElsewhere fd) xs
    → c.socket ≡ fd
    → del_node fd (a ∷ b ∷ (xs ++ c ∷ ys)) ≡ a ∷ b ∷ (xs ++ ys)
unfolding del_node unlink_after
del_node-third fd a b c [] [] na nb h e = ground arith
del_node-third fd a b c [] (y ∷ ys) na nb h e = ground arith
del_node-third fd a b c (x ∷ xs) ys na nb h e =
    ground (arith, unlink_after-found fd x xs c ys h.0 h.1 e)

-- The socket of the second user online, and not of the first: del_node takes out both.
pub del_node-second :
    (fd : ℕ) (a b : UserDate) (ys : List UserDate)
    → IsElsewhere fd a
    → b.socket ≡ fd
    → del_node fd (a ∷ b ∷ ys) ≡ ys
unfolding del_node unlink_after
del_node-second fd a b [] na e = ground arith
del_node-second fd a b (y ∷ ys) na e = ground arith

-- A socket that is no user's online, while at least three are, the last one perhaps its own:
-- del_node takes out the last user and no other.
pub del_node-missing :
    (fd : ℕ) (a b c : UserDate) (xs : List UserDate)
    → All (IsElsewhere fd) (a ∷ b ∷ xs)
    → del_node fd (a ∷ b ∷ (xs ++ c ∷ [])) ≡ a ∷ b ∷ xs
unfolding del_node unlink_after
del_node-missing fd a b c [] h = ground arith
del_node-missing fd a b c (x ∷ xs) h =
    ground (arith, unlink_after-missing fd x xs c h.1.1.0 h.1.1.1)
