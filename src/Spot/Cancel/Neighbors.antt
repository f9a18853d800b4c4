-- ===== src/Spot/Cancel/Neighbors.antt =====
-- The neighbors of an order of a queue
-- (programs/tidebook/src/instructions/cancel_limit_order.rs).
use tidebook.Base.{
  ℕ, ◌≡◌, List, [], ◌∷◌, Option, none, some, is_none, opt_eq, true, false, Bool-cases, inl, inr,
  ◌==◌, arith, if◌then◌else◌,
}
use tidebook.State.{Pubkey, Account, Order}
use tidebook.Spot.Match.Steps.{key_of}
use tidebook.Spot.Queue.{Store, IsLinked, mem, distinct}

-- The supplied neighbors of an order are the ones that it names, as they are stored.
pub record Neighbors (st : Store Order) (x : Pubkey) (o : Order)
    (previous next : Option (Account Order)) : Type 0 where
  pub order_stored : st x ≡ some o
  pub previous_is : o.previous_order ≡ key_of previous
  pub next_is : o.next_order ≡ key_of next
  pub previous_stored : (p : Account Order) → previous ≡ some p → st p.key ≡ some p.val
  pub previous_links : (p : Account Order) → previous ≡ some p → p.val.next_order ≡ some x
  pub next_stored : (n : Account Order) → next ≡ some n → st n.key ≡ some n.val

-- The last order of a part, and the first one, after an order of it leaves.
abbrev pub last_after : Order → Option Pubkey → Option Pubkey
last_after o last = if is_none o.next_order then o.previous_order else last

abbrev pub here_after : Pubkey → Order → Option Pubkey → Option Pubkey
here_after x o here = if opt_eq here (some x) then o.next_order else here

module _ (st : Store Order) (level x : Pubkey) (o : Order) (previous next : Option (Account Order))
    (nb : Neighbors st x o previous next) where
  -- The successor of an order of the queue stands in it.
  pub mem_next :
      (gap here last : Option Pubkey) (total : ℕ) (ks : List Pubkey) (n : Pubkey)
      → IsLinked st level gap here last total ks
      → mem x ks ≡ true
      → o.next_order ≡ some n
      → mem n ks ≡ true
  unfolding IsLinked mem
  mem_next gap here last total [] n l m e = absurd (ground arith)
  mem_next gap here last total (k ∷ []) n (h, (v, (w, (rest, (t, (f, g, z)))))) m e =
      absurd (ground (arith, w.stored, nb.order_stored))
  mem_next gap here last total (k ∷ y ∷ ys) n (h, (v, (w, (rest, (t, more))))) m e =
      elim (Bool-cases (x == k)) [
        | inl same ↦ ground (arith, w.stored, nb.order_stored, more.0)
        | inr differs ↦
            let later : mem n (y ∷ ys) ≡ true =
              mem_next (some k) v.next_order last rest (y ∷ ys) n more (ground arith) e in
            ground arith
      ]

  -- The first order of a part names the one before it.
  pub first_back :
      (gap here last : Option Pubkey) (total : ℕ) (ks : List Pubkey)
      → IsLinked st level gap here last total ks
      → here ≡ some x
      → o.previous_order ≡ gap
  unfolding IsLinked
  first_back gap here last total [] (h, _, _) e = absurd (ground arith)
  first_back gap here last total (k ∷ ks) (h, (v, (w, _))) e =
      ground (arith, w.stored, w.back, nb.order_stored)

  mem_first :
      (gap here last : Option Pubkey) (total : ℕ) (ks : List Pubkey) (n : Pubkey)
      → IsLinked st level gap here last total ks
      → here ≡ some n
      → mem n ks ≡ true
  unfolding IsLinked mem
  mem_first gap here last total [] n (h, _, _) e = absurd (ground arith)
  mem_first gap here last total (k ∷ ks) n (h, _) e = ground arith

  -- An order that stands behind another one names one before it.
  has_previous :
      (k : Pubkey) (here last : Option Pubkey) (total : ℕ) (ks : List Pubkey)
      → IsLinked st level (some k) here last total ks
      → mem x ks ≡ true
      → is_none o.previous_order ≡ false
  unfolding IsLinked mem
  has_previous k here last total [] l m = absurd (ground arith)
  has_previous k here last total (q ∷ qs) (h, (v, (w, (rest, (t, more))))) m =
      elim (Bool-cases (q == x)) [
        | inl found ↦ ground (arith, w.stored, w.back, nb.order_stored)
        | inr differs ↦ has_previous q v.next_order last rest qs more (ground arith)
      ]

  -- The two neighbors of an order of the queue are different.
  pub neighbors_apart :
      (gap here last : Option Pubkey) (total : ℕ) (ks : List Pubkey) (p n : Pubkey)
      → IsLinked st level gap here last total ks
      → mem x ks ≡ true
      → ((q : Pubkey) → gap ≡ some q → mem q ks ≡ false)
      → distinct ks ≡ true
      → o.previous_order ≡ some p
      → o.next_order ≡ some n
      → (p == n) ≡ false
  unfolding IsLinked mem distinct
  neighbors_apart gap here last total [] p n l m mp d a b = absurd (ground arith)
  neighbors_apart gap here last total (k ∷ ks) p n (h, (v, (w, (rest, (t, more))))) m mp d a b =
      elim (Bool-cases (k == x)) [
        | inl found ↦
            let same : v ≡ o = ground (arith, w.stored, nb.order_stored) in
            let after : mem n ks ≡ true =
              mem_first (some k) v.next_order last rest ks n more (ground arith) in
            elim (Bool-cases (p == n)) [
              | inl equal ↦ absurd (ground (arith, mp p (ground (arith, w.back))))
              | inr differs ↦ differs
            ]
        | inr differs ↦
            neighbors_apart (some k) v.next_order last rest ks p n more (ground arith)
              (λ q e. ground arith) (ground arith) a b
      ]

  -- Only the first order of a queue has none before it.
  pub first_is :
      (here last : Option Pubkey) (total : ℕ) (ks : List Pubkey)
      → IsLinked st level none here last total ks
      → mem x ks ≡ true
      → here_after x o here ≡ (if is_none previous then key_of next else here)
  unfolding IsLinked mem
  first_is here last total [] l m = absurd (ground arith)
  first_is here last total (k ∷ ks) (h, (v, (w, (rest, (t, more))))) m =
      elim (Bool-cases (k == x)) [
        | inl found ↦ ground (arith, w.stored, nb.order_stored, w.back, nb.previous_is, nb.next_is)
        | inr differs ↦
            ground
              (arith, has_previous k v.next_order last rest ks more (ground arith), nb.previous_is)
      ]
