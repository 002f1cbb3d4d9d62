-- ===== src/Postgres/Queues/Like.antt =====
-- The database's LIKE and ORDER BY name, as queues.go and topics.go use them. `%` stands for any
-- text, `_` for one character, and a backslash takes the next character as it is.
use dropin_queue.Base.{◌==◌, Bool, true, false, ◌&&◌, ◌||◌, [], ◌∷◌, Text, if◌then◌else◌}

unfoldable pub like : Text → Text → Bool
like [] [] = true
like [] (c ∷ s) = false
like (p ∷ ps) [] = let rest = like ps [] in if p == b'%' then rest else false
like (p ∷ []) (c ∷ s) =
    let here = like [] s in if p == b'%' then true else ((p == b'_') || (p == c)) && here
like (p ∷ q ∷ ps) (c ∷ s) =
    let more = like (p ∷ q ∷ ps) s in
    let skip = like (q ∷ ps) (c ∷ s) in
    let one = like (q ∷ ps) s in
    let escaped = like ps s in
    if p == b'%'
    then skip || more
    else if p == b'_'
    then one
    else if p == b'\\'
    then (q == c) && escaped
    else (p == c) && one
