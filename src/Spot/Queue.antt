-- ===== src/Spot/Queue.antt =====
-- The FIFO queue of a price level as the program keeps it, a list of order accounts linked both ways
-- (`PriceLevel` and `Order` of programs/tidebook/src/state.rs), and what it stands for, a list of
-- order addresses, oldest first.
pub mod View
use tidebook.Base.{
  true, Bool, not, ◌&&◌, ◌||◌, inl, inr, Bool-cases, arith, ◌≢◌, ℕ, ◌+◌, ◌≡◌, refl, List, [], ◌∷◌,
  ◌++◌, Option, none, some, false, ◌==◌, arith, if◌then◌else◌,
}
use tidebook.State.{Pubkey, Account, Order, open_, PriceLevel}

-- The accounts of the ledger, by address, and the write of one.
abbrev pub Store : Type 0 → Type 0
Store A = Pubkey → Option A

unfoldable pub put : {A : Type 0} → Pubkey → A → Store A → Store A
put k v st q = if q == k then some v else st q

pub put-same : {A : Type 0} (k : Pubkey) (v : A) (st : Store A) → put k v st k ≡ some v
unfolding put
put-same k v st = ground arith

pub put-differs :
    {A : Type 0} (k q : Pubkey) (v : A) (st : Store A) → (q == k) ≡ false → put k v st q ≡ st q
unfolding put
put-differs k q v st h = ground arith

-- One order of a queue: where it rests, and its link back.
pub record Node (st : Store Order) (level : Pubkey) (previous : Option Pubkey) (k : Pubkey)
    (o : Order) : Type 0 where
  pub stored : st k ≡ some o
  pub rests_here : o.price_level ≡ level
  pub still_open : o.status ≡ open_
  pub back : o.previous_order ≡ previous

-- The orders from `here` on are linked one to the next up to `last`, and `total` is what remains of
-- them together.
unfoldable pub IsLinked :
    Store Order → Pubkey → (previous here last : Option Pubkey) → (total : ℕ) → List Pubkey → Type 0
IsLinked st level previous here last total [] = (here ≡ none) × (last ≡ previous) × (total ≡ 0)
IsLinked st level previous here last total (k ∷ ks) =
    (here ≡ some k)
    × ((o : Order) × (Node st level previous k o
          × ((rest : ℕ) × ((total ≡ o.remaining_quantity + rest)
                × IsLinked st level (some k) o.next_order last rest ks))))

pub link :
    (st : Store Order) (level : Pubkey) (previous here last : Option Pubkey) (total : ℕ)
    (k : Pubkey) (ks : List Pubkey) (o : Order) (rest : ℕ)
    → here ≡ some k
    → Node st level previous k o
    → total ≡ o.remaining_quantity + rest
    → IsLinked st level (some k) o.next_order last rest ks
    → IsLinked st level previous here last total (k ∷ ks)
unfolding IsLinked
link st level previous here last total k ks o rest h n t more = (h, (o, (n, (rest, (t, more)))))

unfoldable pub mem : Pubkey → List Pubkey → Bool
mem q [] = false
mem q (k ∷ ks) = q == k || mem q ks

unfoldable pub distinct : List Pubkey → Bool
unfolding mem
distinct [] = true
distinct (k ∷ ks) = not (mem k ks) && distinct ks

unfoldable pub length : List Pubkey → ℕ
length [] = 0
length (_ ∷ ks) = 1 + length ks

-- A price level with its queue: both ends, the number of orders and their total quantity
-- agree, and no order stands in it twice.
pub record IsQueue (st : Store Order) (level : Account PriceLevel) (ks : List Pubkey) : Type 0 where
  pub linked :
      IsLinked st level.key none level.val.first_order level.val.last_order
        level.val.total_remaining_quantity ks
  pub counted : level.val.order_count ≡ length ks
  pub apart : distinct ks ≡ true

pub length-snoc : (ks : List Pubkey) (k : Pubkey) → length (ks ++ (k ∷ [])) ≡ length ks + 1
unfolding length
length-snoc [] k = refl
length-snoc (x ∷ ks) k = ground (arith, length-snoc ks k)

-- Whatever stands in a queue is stored.
pub IsLinked-stored :
    (st : Store Order) (level : Pubkey) (previous here last : Option Pubkey) (total : ℕ)
    (ks : List Pubkey) (q : Pubkey)
    → IsLinked st level previous here last total ks
    → mem q ks ≡ true
    → st q ≢ none
unfolding IsLinked mem
IsLinked-stored st level previous here last total [] q l h e = ground arith
IsLinked-stored st level previous here last total (k ∷ ks) q (_, (o, (n, (rest, (_, more))))) h e =
    elim (Bool-cases (q == k)) [
      | inl same ↦ ground (arith, n.stored)
      | inr differs ↦
          IsLinked-stored st level (some k) o.next_order last rest ks q more (ground arith) e
    ]

pub mem-snoc : (ks : List Pubkey) (q k : Pubkey) → mem q (ks ++ (k ∷ [])) ≡ (mem q ks || q == k)
unfolding mem
mem-snoc [] q k = ground arith
mem-snoc (x ∷ ks) q k = ground (arith, mem-snoc ks q k)

pub distinct-snoc :
    (ks : List Pubkey) (k : Pubkey)
    → distinct ks ≡ true
    → mem k ks ≡ false
    → distinct (ks ++ (k ∷ [])) ≡ true
unfolding distinct mem
distinct-snoc [] k d m = ground arith
distinct-snoc (x ∷ ks) k d m = ground (arith, mem-snoc ks x k, distinct-snoc ks k)
