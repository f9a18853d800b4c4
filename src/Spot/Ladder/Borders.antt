-- ===== src/Spot/Ladder/Borders.antt =====
-- The neighbors of a level in the list of levels of its side
-- (`PriceLevel` of programs/tidebook/src/state.rs).
use tidebook.Base.{
  ℕ, ◌≡◌, refl, ◌⊎◌, List, [], ◌∷◌, Option, none, some, true, false, Bool-cases, inl, inr, ◌==◌,
  arith,
}
use tidebook.State.{Account, OrderSide, has_priority, PriceLevel}
use tidebook.Spot.Insert.{price_of}
use tidebook.Spot.Ladder.{Levels, mem, IsChain, IsLadder}

-- The supplied neighbors are the accounts of the ledger, they point at the level that leaves, and
-- where one is missing the level has none.
pub record Bordered (side : OrderSide) (st : Levels) (x : ℕ) (l : PriceLevel)
    (better worse : Option (Account PriceLevel)) : Type 0 where
  pub stored : st x ≡ some l
  pub better_stored : (b : Account PriceLevel) → better ≡ some b → st b.val.price ≡ some b.val
  pub worse_stored : (w : Account PriceLevel) → worse ≡ some w → st w.val.price ≡ some w.val
  pub better_points : (b : Account PriceLevel) → better ≡ some b → b.val.worse_price ≡ some x
  pub worse_points : (w : Account PriceLevel) → worse ≡ some w → w.val.better_price ≡ some x
  pub better_ahead :
      (b : Account PriceLevel) → better ≡ some b → has_priority side b.val.price x ≡ true
  pub worse_behind :
      (w : Account PriceLevel) → worse ≡ some w → has_priority side x w.val.price ≡ true
  pub no_better : better ≡ none → l.better_price ≡ none
  pub no_worse : worse ≡ none → l.worse_price ≡ none

-- What the store holds afterwards.
pub record Dropped (x : ℕ) (l : PriceLevel) (better worse : Option (Account PriceLevel))
    (st st' : Levels) : Type 0 where
  pub gone : st' x ≡ none
  pub at_better :
      (b : Account PriceLevel)
      → better ≡ some b
      → st' b.val.price ≡ some (record b.val { worse_price = l.worse_price })
  pub at_worse :
      (w : Account PriceLevel)
      → worse ≡ some w
      → st' w.val.price ≡ some (record w.val { better_price = l.better_price })
  pub elsewhere :
      (q : ℕ)
      → (q == x) ≡ false
      → ((b : Account PriceLevel) → better ≡ some b → (q == b.val.price) ≡ false)
      → ((w : Account PriceLevel) → worse ≡ some w → (q == w.val.price) ≡ false)
      → st' q ≡ st q

module _ (side : OrderSide) (st : Levels) (x : ℕ) (l : PriceLevel) (stored : st x ≡ some l) where
  -- The level that points down at `x` is the one that `x` points up at.
  pub above :
      (gap here : Option ℕ) (ps : List ℕ) (b : ℕ) (lb : PriceLevel)
      → IsChain side st gap here ps
      → mem b ps ≡ true
      → st b ≡ some lb
      → lb.worse_price ≡ some x
      → l.better_price ≡ some b
  unfolding IsChain mem
  above gap here [] b lb c m s e = absurd (ground arith)
  above gap here (p ∷ []) b lb (h, (v, (n, ends))) m s e = absurd (ground (arith, n.stored))
  above gap here (p ∷ q ∷ qs) b lb (h, (v, (n, (k, (w, (o, more)))))) m s e =
      elim (Bool-cases (b == p)) [
        | inl same ↦ ground (arith, n.stored, o.stored, o.back)
        | inr differs ↦
            above (some p) v.worse_price (q ∷ qs) b lb (k, (w, (o, more))) (ground arith) s e
      ]

  -- The level that points up at `x` is the one that `x` points down at.
  below :
      (g : ℕ) (here : Option ℕ) (ps : List ℕ) (w : ℕ) (lw : PriceLevel)
      → IsChain side st (some g) here ps
      → mem w ps ≡ true
      → st w ≡ some lw
      → lw.better_price ≡ some x
      → ((g ≡ x) × (here ≡ some w)) ⊎ (l.worse_price ≡ some w)
  unfolding IsChain mem
  below g here [] w lw c m s e = absurd (ground arith)
  below g here (p ∷ ps) w lw (h, (v, (n, more))) m s e = elim (Bool-cases (w == p)) [
    | inl same ↦ inl (ground (arith, n.stored, n.back), ground arith)
    | inr differs ↦ elim (below p v.worse_price ps w lw more (ground arith) s e) [
      | inl (at, next) ↦ inr (ground (arith, n.stored))
      | inr found ↦ inr found
    ]
  ]

  below_first :
      (here : Option ℕ) (ps : List ℕ) (w : ℕ) (lw : PriceLevel)
      → IsChain side st none here ps
      → mem w ps ≡ true
      → st w ≡ some lw
      → lw.better_price ≡ some x
      → l.worse_price ≡ some w
  unfolding IsChain mem
  below_first here [] w lw c m s e = absurd (ground arith)
  below_first here (p ∷ ps) w lw (h, (v, (n, more))) m s e = elim (Bool-cases (w == p)) [
    | inl same ↦ absurd (ground (arith, n.stored, n.back))
    | inr differs ↦ elim (below p v.worse_price ps w lw more (ground arith) s e) [
      | inl (at, next) ↦ ground (arith, n.stored)
      | inr found ↦ found
    ]
  ]

pub price_of-some :
    (o : Option (Account PriceLevel)) (p : ℕ)
    → price_of o ≡ some p
    → (a : Account PriceLevel) × ((o ≡ some a) × (a.val.price ≡ p))
price_of-some none p e = absurd (ground arith)
price_of-some (some a) p e = (a, (refl, ground arith))

module _ (side : OrderSide) (st : Levels) (x : ℕ) (l : PriceLevel) (best : Option ℕ) (ps : List ℕ)
    (ladder : IsLadder side st best ps) where
  pub better-named :
      (better worse : Option (Account PriceLevel))
      → Bordered side st x l better worse
      → l.better_price ≡ price_of better
  better-named none worse bd = bd.no_better refl
  better-named (some b) worse bd =
      let s = bd.better_stored b refl in
      above side st x l bd.stored none best ps b.val.price b.val ladder.chain
        (ladder.complete b.val.price b.val s) s (bd.better_points b refl)

  pub worse-named :
      (better worse : Option (Account PriceLevel))
      → Bordered side st x l better worse
      → l.worse_price ≡ price_of worse
  worse-named better none bd = bd.no_worse refl
  worse-named better (some w) bd =
      let s = bd.worse_stored w refl in
      below_first side st x l bd.stored best ps w.val.price w.val ladder.chain
        (ladder.complete w.val.price w.val s) s (bd.worse_points w refl)
