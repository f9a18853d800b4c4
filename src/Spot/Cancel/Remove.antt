-- ===== src/Spot/Cancel/Remove.antt =====
-- A list of order addresses without one of them
-- (programs/tidebook/src/instructions/cancel_limit_order.rs).
use tidebook.Base.{◌+◌, ◌≡◌, refl, List, [], ◌∷◌, true, false, ◌==◌, arith, if◌then◌else◌}
use tidebook.State.{Pubkey}
use tidebook.Spot.Queue.{mem, distinct, length}

unfoldable pub remove : Pubkey → List Pubkey → List Pubkey
remove x [] = []
remove x (k ∷ ks) = let rest = remove x ks in if k == x then ks else k ∷ rest

pub length-remove :
    (x : Pubkey) (ks : List Pubkey) → mem x ks ≡ true → length (remove x ks) + 1 ≡ length ks
unfolding length remove mem
length-remove x [] m = absurd (ground arith)
length-remove x (k ∷ ks) m = ground (arith, length-remove x ks)

mem-remove : (x q : Pubkey) (ks : List Pubkey) → mem q ks ≡ false → mem q (remove x ks) ≡ false
unfolding mem remove
mem-remove x q [] m = refl
mem-remove x q (k ∷ ks) m = ground (arith, mem-remove x q ks)

pub distinct-remove :
    (x : Pubkey) (ks : List Pubkey) → distinct ks ≡ true → distinct (remove x ks) ≡ true
unfolding distinct remove mem
distinct-remove x [] d = refl
distinct-remove x (k ∷ ks) d = ground (arith, distinct-remove x ks, mem-remove x k ks)

pub empty : (ks : List Pubkey) → length ks ≡ 0 → ks ≡ []
unfolding length
empty [] e = refl
empty (k ∷ ks) e = absurd (ground arith)
