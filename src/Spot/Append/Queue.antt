-- ===== src/Spot/Append/Queue.antt =====
-- Appending joins the tail of the queue
-- (programs/tidebook/src/instructions/append_limit_order.rs).
use tidebook.Base.{
  ℕ, ◌+◌, ◌≡◌, refl, ◌∙◌, List, [], ◌∷◌, ◌++◌, Option, none, some, false, Bool-cases, inl, inr,
  ◌==◌, arith,
}
use tidebook.State.{Pubkey, Order, open_}
use tidebook.Spot.Queue.{Store, put, put-same, put-differs, Node, IsLinked, link}

-- The orders of the ledger after the old tail and the new order are written.
abbrev pub joined :
    Store Order → (tail_key : Pubkey) → Order → (new_key : Pubkey) → Order → Store Order
joined st tail_key tail new_key new = put new_key new (put tail_key tail st)

-- A new order that can stand behind the tail.
pub record Joins (st : Store Order) (level tail_key : Pubkey) (tail : Order) (new_key : Pubkey)
    (new : Order) : Type 0 where
  pub tail_stored : st tail_key ≡ some tail
  pub tail_ends : tail.next_order ≡ none
  pub is_new : st new_key ≡ none
  pub rests_here : new.price_level ≡ level
  pub still_open : new.status ≡ open_
  pub back : new.previous_order ≡ some tail_key
  pub ends : new.next_order ≡ none

is-other :
    (st : Store Order) (k new_key : Pubkey) (o : Order)
    → st k ≡ some o
    → st new_key ≡ none
    → (k == new_key) ≡ false
is-other st k new_key o h e = elim (Bool-cases (k == new_key)) [
  | inl same ↦ absurd (ground arith)
  | inr differs ↦ differs
]

-- The account of an order that is neither of the two written ones.
joined-other :
    (st : Store Order) (tail_key : Pubkey) (tail : Order) (new_key : Pubkey) (new : Order)
    (k : Pubkey)
    → (k == tail_key) ≡ false
    → (k == new_key) ≡ false
    → joined st tail_key tail new_key new k ≡ st k
joined-other st tail_key tail new_key new k a b =
    put-differs new_key k new (put tail_key tail st) b ∙ put-differs tail_key k tail st a

-- What the two written accounts hold.
joined-new :
    (st : Store Order) (tail_key : Pubkey) (tail : Order) (new_key : Pubkey) (new : Order)
    → joined st tail_key tail new_key new new_key ≡ some new
joined-new st tail_key tail new_key new = put-same new_key new (put tail_key tail st)

joined-tail :
    (st : Store Order) (tail_key : Pubkey) (tail : Order) (new_key : Pubkey) (new : Order)
    → (tail_key == new_key) ≡ false
    → joined st tail_key tail new_key new tail_key ≡ some tail
joined-tail st tail_key tail new_key new d =
    put-differs new_key tail_key new (put tail_key tail st) d ∙ put-same tail_key tail st

pub IsLinked-joined :
    (st : Store Order) (level : Pubkey) (previous here last : Option Pubkey) (total : ℕ)
    (k : Pubkey) (ks : List Pubkey) (tail_key : Pubkey) (tail : Order) (new_key : Pubkey)
    (new : Order)
    → Joins st level tail_key tail new_key new
    → IsLinked st level previous here last total (k ∷ ks)
    → last ≡ some tail_key
    → IsLinked
        (joined st tail_key (record tail { next_order = some new_key }) new_key new)
        level
        previous
        here
        (some new_key)
        (total + new.remaining_quantity)
        ((k ∷ ks) ++ (new_key ∷ []))
unfolding IsLinked
IsLinked-joined st level previous here last total k [] tail_key tail new_key new j
      (h, (o, (n, (rest, (t, (e, f, g)))))) l =
    let tail' = record tail { next_order = some new_key } in
    let st' = joined st tail_key tail' new_key new in
    let at_tail : k ≡ tail_key = ground arith in
    let same : o ≡ tail = ground (arith, n.stored, j.tail_stored) in
    let apart = is-other st tail_key new_key tail j.tail_stored j.is_new in
    let node : Node st' level previous k tail' = record {
      stored = rw at_tail (joined-tail st tail_key tail' new_key new apart);
      rests_here = ground (arith, n.rests_here);
      still_open = ground (arith, n.still_open);
      back = ground (arith, n.back);
    } in
    let added : Node st' level (some k) new_key new = record {
      stored = joined-new st tail_key tail' new_key new;
      rests_here = j.rests_here;
      still_open = j.still_open;
      back = ground (arith, j.back);
    } in
    link st' level previous here _ _ k (new_key ∷ []) tail' new.remaining_quantity h node
      (ground arith)
      (link st' level (some k) _ _ _ new_key [] new 0 refl added (omega arith) (j.ends, refl, refl))
IsLinked-joined st level previous here last total k (k' ∷ ks) tail_key tail new_key new j
      (h, (o, (n, (rest, (t, more))))) l =
    let tail' = record tail { next_order = some new_key } in
    let st' = joined st tail_key tail' new_key new in
    let not_tail : (k == tail_key) ≡ false = elim (Bool-cases (k == tail_key)) [
      | inl same ↦ absurd (ground (arith, n.stored, j.tail_stored, j.tail_ends, more.0))
      | inr differs ↦ differs
    ] in
    let node : Node st' level previous k o = record {
      stored =
          joined-other st tail_key tail' new_key new k not_tail
            (is-other st k new_key o n.stored j.is_new)
          ∙ n.stored;
      rests_here = n.rests_here;
      still_open = n.still_open;
      back = n.back;
    } in
    link st' level previous here (some new_key) _ k ((k' ∷ ks) ++ (new_key ∷ [])) o
      (rest + new.remaining_quantity) h node (omega arith)
      (IsLinked-joined st level (some k) o.next_order last rest k' ks tail_key tail new_key new j
        more l)
