-- ===== src/Spot/Insert/Refinement.antt =====
-- An insertion refines the sorted list of prices
-- (programs/tidebook/src/instructions/insert_limit_order.rs).
use tidebook.Base.{
  ℕ, ◌≡◌, refl, List, Option, none, some, Option-cases, is_none, true, false, Bool-cases, inl, inr,
  ◌==◌, ok, arith, if◌then◌else◌,
}
use tidebook.State.{Account, Runtime, Market, OrderSide, bid, ask, best_of, set_best, PriceLevel}
use tidebook.Spot.Queue.{put}
use tidebook.Spot.Ladder.{
  Levels, mem, insert_price, IsLadder, has_priority_trans, has_priority-ne, has_priority-ne_sym,
  mem-insert_price, mem-insert_price_same,
}
use tidebook.Spot.Insert.{
  InsertLimitOrder, Inserted, link_worse, link_better, insert_writes, handle_insert_limit_order,
}
use tidebook.Spot.Insert.Links.{Place, insert-Parts}
use tidebook.Spot.Insert.Ladder.{Spliced, Supplied, gap-IsChain, extended-IsChain}

-- The level accounts of the ledger after the neighbors, if there are any, and the new level are
-- written.
abbrev pub put_level : Option (Account PriceLevel) → Levels → Levels
put_level none st = st
put_level (some a) st = put a.val.price a.val st

abbrev pub inserted_levels : Inserted → Levels → Levels
inserted_levels d st =
    put d.price_level.val.price d.price_level.val
      (put_level d.better_level (put_level d.worse_level st))

-- The store after the writes, by what was supplied.
abbrev pub linked_levels :
    ℕ → PriceLevel → (better worse : Option (Account PriceLevel)) → Levels → Levels
linked_levels price new better worse st =
    put price new (put_level (link_worse price better) (put_level (link_better price worse) st))

linked_levels-Spliced :
    (side : OrderSide) (price : ℕ) (new : PriceLevel) (best : Option ℕ)
    (better worse : Option (Account PriceLevel)) (st : Levels)
    → Place side price best better worse
    → Spliced price new better worse st (linked_levels price new better worse st)
unfolding put
linked_levels-Spliced side price new best none none st p = record {
  at_new = ground arith;
  at_better = λ b e. absurd (ground arith);
  at_worse = λ w e. absurd (ground arith);
  elsewhere = λ q ne nb nw. ground arith;
}
linked_levels-Spliced side price new best (some b) none st p =
    let first = has_priority-ne side b.val.price price (p.after_better b refl).0 in
    record {
      at_new = ground arith;
      at_better = λ v e. ground arith;
      at_worse = λ w e. absurd (ground arith);
      elsewhere = λ q ne nb nw. ground (arith, nb b refl);
    }
linked_levels-Spliced side price new best none (some w) st p =
    let last = has_priority-ne_sym side price w.val.price (p.before_worse w refl).0 in
    record {
      at_new = ground arith;
      at_better = λ b e. absurd (ground arith);
      at_worse = λ v e. ground arith;
      elsewhere = λ q ne nb nw. ground (arith, nw w refl);
    }
linked_levels-Spliced side price new best (some b) (some w) st p =
    let first = has_priority-ne side b.val.price price (p.after_better b refl).0 in
    let last = has_priority-ne_sym side price w.val.price (p.before_worse w refl).0 in
    let apart = has_priority-ne_sym side b.val.price w.val.price (
      has_priority_trans side b.val.price price w.val.price (p.after_better b refl).0
        (p.before_worse w refl).0) in
    record {
      at_new = ground arith;
      at_better = λ v e. ground arith;
      at_worse = λ v e. ground arith;
      elsewhere = λ q ne nb nw. ground (arith, nb b refl, nw w refl);
    }

abbrev pub head_after : ℕ → Option ℕ → Option (Account PriceLevel) → Option ℕ
head_after price best none = some price
head_after price best (some b) = best

not_at :
    (st : Levels) (q : ℕ) (o : Option (Account PriceLevel))
    → ((b : Account PriceLevel) → o ≡ some b → st b.val.price ≡ some b.val)
    → st q ≡ none
    → (b : Account PriceLevel) → o ≡ some b
    → (q == b.val.price) ≡ false
not_at st q o f e b is = elim (Bool-cases (q == b.val.price)) [
  | inl same ↦ absurd (ground (arith, f b is))
  | inr differs ↦ differs
]

-- Every level that is stored after the writes was stored before or is the new one.
Spliced-complete :
    (side : OrderSide) (price : ℕ) (new : PriceLevel) (better worse : Option (Account PriceLevel))
    (st st' : Levels) (ps : List ℕ)
    → Supplied st price new better worse
    → Spliced price new better worse st st'
    → ((q : ℕ) (l : PriceLevel) → st q ≡ some l → mem q ps ≡ true)
    → (q : ℕ) (l : PriceLevel) → st' q ≡ some l
    → mem q (insert_price side price ps) ≡ true
Spliced-complete side price new better worse st st' ps s sp f q l e =
    elim (Bool-cases (q == price)) [
      | inl same ↦ ground (arith, mem-insert_price_same side price ps)
      | inr ne ↦ elim (Option-cases (st q)) [
        | inr (l', e') ↦ mem-insert_price side price q ps (f q l' e')
        | inl gone ↦ absurd (
            ground (
              arith,
              sp.elsewhere q ne (not_at st q better s.better_stored gone)
                  (not_at st q worse s.worse_stored gone),
            ))
      ]
    ]

pub linked_levels-IsLadder :
    (side : OrderSide) (price : ℕ) (new : PriceLevel) (best : Option ℕ)
    (better worse : Option (Account PriceLevel)) (st : Levels) (ps : List ℕ)
    → Place side price best better worse
    → Supplied st price new better worse
    → IsLadder side st best ps
    → IsLadder side
        (linked_levels price new better worse st)
        (head_after price best better)
        (insert_price side price ps)
linked_levels-IsLadder side price new best none worse st ps place s ladder =
    let st' = linked_levels price new none worse st in
    let sp = linked_levels-Spliced side price new best none worse st place in
    record {
      chain =
          gap-IsChain side price new best none worse st st' place s sp none best ps ladder.chain
            (place.at_head refl);
      complete = Spliced-complete side price new none worse st st' ps s sp ladder.complete;
    }
linked_levels-IsLadder side price new best (some b) worse st ps place s ladder =
    let st' = linked_levels price new (some b) worse st in
    let sp = linked_levels-Spliced side price new best (some b) worse st place in
    record {
      chain =
          extended-IsChain side price new best (some b) worse st st' place s sp b none best ps refl
            ladder.chain (ladder.complete b.val.price b.val (s.better_stored b refl));
      complete = Spliced-complete side price new (some b) worse st st' ps s sp ladder.complete;
    }

best_after :
    (side : OrderSide) (price next_id count : ℕ) (m : Market) (o : Option (Account PriceLevel))
    → best_of side (record (if is_none o then set_best side (some price) m else m) {
      next_order_id = next_id;
      open_order_count = count;
    })
      ≡ head_after price (best_of side m) o
unfolding best_of set_best
best_after bid price next_id count m none = refl
best_after bid price next_id count m (some b) = refl
best_after ask price next_id count m none = refl
best_after ask price next_id count m (some b) = refl

-- An insertion refines the insertion into a sorted list of prices: where the levels of the side on
-- the ledger are linked as the list `ps` from the best price on, with none besides, and the supplied
-- neighbors are the stored ones, the levels after the instruction are linked as `ps` with the price
-- at its place, from the new best price on, with none besides.
pub insert_extends :
    (rt : Runtime) (side : OrderSide) (price quantity : ℕ) (c : InsertLimitOrder) (d : Inserted)
    (st : Levels) (ps : List ℕ)
    → handle_insert_limit_order rt side price quantity c ≡ ok d
    → IsLadder side st (best_of side c.market.val) ps
    → ((b : Account PriceLevel) → c.better_level ≡ some b → st b.val.price ≡ some b.val)
    → ((w : Account PriceLevel) → c.worse_level ≡ some w → st w.val.price ≡ some w.val)
    → IsLadder side (inserted_levels d st) (best_of side d.market.val) (insert_price side price ps)
unfolding insert_writes
insert_extends rt side price quantity c d st ps h ladder bs ws =
    let p = insert-Parts rt side price quantity c d h in
    let w =
      insert_writes c side price quantity p.locked p.bumps p.balance p.next_order_id p.count in
    rw p.written (
      rw (best_after side price p.next_order_id p.count c.market.val c.better_level) (
        linked_levels-IsLadder side price w.price_level.val (best_of side c.market.val)
          c.better_level c.worse_level st ps p.place
          (record {
            better_stored = bs;
            worse_stored = ws;
            new_price = refl;
            new_better = refl;
            new_worse = refl;
          })
          ladder))
