-- ===== src/Chat/Online.antt =====
-- The list of users online: charu_list, del_node and the searches by name.
pub mod Removal
use team_c.Common.{ℕ, ◌==◌, ◌≡◌, Option, List, [], ◌∷◌, if◌then◌else◌}
use team_c.Common.Text.{CStr, streq}
use team_c.Common.Search.{find}
use team_c.Chat.World.{World, UserDate, weicha_list}

-- charu_list
unfoldable pub charu_list : UserDate → World → World
charu_list date w = record w { head = weicha_list w.head date }

-- The search for a user by name that the handlers repeat.
unfoldable pub find_online : CStr → World → Option UserDate
find_online name w = find (λ u. streq u.name name) w.head

-- It reads nothing but the list of users online.
pub find_online-head :
    (name : CStr) (v w : World) → v.head ≡ w.head → find_online name v ≡ find_online name w
unfolding find_online
find_online-head name v w e = rw e

-- The loop of del_node from its third node on, `prev` not being the head: the nodes that are kept.
-- It stops at the socket or at the last node, and unlinks the node where it stopped.
unfoldable pub unlink_after : ℕ → UserDate → List UserDate → List UserDate
unlink_after fd current [] = []
unlink_after fd current (next ∷ rest) =
    if current.socket == fd then next ∷ rest else current ∷ unlink_after fd next rest

-- del_node on the list: `prev == head` holds when the loop stops at the first node and also when
-- it stops at the second, and then `head = current->next`.
unfoldable pub del_node : ℕ → List UserDate → List UserDate
del_node fd [] = []
del_node fd (first ∷ []) = []
del_node fd (first ∷ second ∷ []) = if first.socket == fd then second ∷ [] else []
del_node fd (first ∷ second ∷ third ∷ rest) =
    if first.socket == fd
    then second ∷ third ∷ rest
    else if second.socket == fd
    then third ∷ rest
    else first ∷ second ∷ unlink_after fd third rest
