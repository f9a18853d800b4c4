-- ===== src/Spot/Insert/Ladder.antt =====
-- A new level goes into the list of levels where its price belongs
-- (programs/tidebook/src/instructions/insert_limit_order.rs).
use tidebook.Base.{
  ℕ, ◌≡◌, refl, sym, ap, ◌∙◌, List, [], ◌∷◌, Option, none, some, true, false, Bool-cases, inl, inr,
  ◌==◌, arith,
}
use tidebook.State.{Account, OrderSide, has_priority, PriceLevel}
use tidebook.Spot.Insert.{price_of}
use tidebook.Spot.Insert.Links.{Place}
use tidebook.Spot.Ladder.{
  Levels, mem, insert_price, Entry, IsChain, has_priority_trans, has_priority-asymm,
  has_priority-ne, has_priority-ne_sym, IsChain-sorted, IsChain-frame,
}

-- What a store holds after a new level is spliced between its neighbors.
pub record Spliced (price : ℕ) (new : PriceLevel) (better worse : Option (Account PriceLevel))
    (st st' : Levels) : Type 0 where
  pub at_new : st' price ≡ some new
  pub at_better :
      (b : Account PriceLevel)
      → better ≡ some b
      → st' b.val.price ≡ some (record b.val { worse_price = some price })
  pub at_worse :
      (w : Account PriceLevel)
      → worse ≡ some w
      → st' w.val.price ≡ some (record w.val { better_price = some price })
  pub elsewhere :
      (q : ℕ)
      → (q == price) ≡ false
      → ((b : Account PriceLevel) → better ≡ some b → (q == b.val.price) ≡ false)
      → ((w : Account PriceLevel) → worse ≡ some w → (q == w.val.price) ≡ false)
      → st' q ≡ st q

-- The supplied neighbors are the accounts of the ledger, and the new level names them.
pub record Supplied (st : Levels) (price : ℕ) (new : PriceLevel)
    (better worse : Option (Account PriceLevel)) : Type 0 where
  pub better_stored : (b : Account PriceLevel) → better ≡ some b → st b.val.price ≡ some b.val
  pub worse_stored : (w : Account PriceLevel) → worse ≡ some w → st w.val.price ≡ some w.val
  pub new_price : new.price ≡ price
  pub new_better : new.better_price ≡ price_of better
  pub new_worse : new.worse_price ≡ price_of worse

-- What is behind a price keeps its place in the store.
beyond :
    (side : OrderSide) (price x q : ℕ) (o : Option (Account PriceLevel))
    → ((b : Account PriceLevel) → o ≡ some b → has_priority side b.val.price x ≡ true)
    → has_priority side x q ≡ true
    → (b : Account PriceLevel) → o ≡ some b
    → (q == b.val.price) ≡ false
beyond side price x q o f k b e =
    has_priority-ne_sym side b.val.price q (has_priority_trans side b.val.price x q (f b e) k)

price_of-none : (o : Option (Account PriceLevel)) → price_of o ≡ none → o ≡ none
price_of-none none e = refl
price_of-none (some a) e = absurd (ground arith)

price_of-some :
    (o : Option (Account PriceLevel)) (p : ℕ)
    → price_of o ≡ some p
    → (a : Account PriceLevel) × ((o ≡ some a) × (a.val.price ≡ p))
price_of-some none p e = absurd (ground arith)
price_of-some (some a) p e = (a, (refl, ground arith))

module _ (side : OrderSide) (price : ℕ) (new : PriceLevel) (best : Option ℕ)
    (better worse : Option (Account PriceLevel)) (st st' : Levels)
    (place : Place side price best better worse) (s : Supplied st price new better worse)
    (sp : Spliced price new better worse st st') where
  new_entry : (b : ℕ) → price_of better ≡ some b → has_priority side b price ≡ true
  new_entry b e =
      let (a, (is, at)) = price_of-some better b e in rw at at (place.after_better a is).0

  new_level-Entry : Entry side st' (price_of better) price new
  new_level-Entry = record {
    stored = sp.at_new;
    priced = s.new_price;
    back = s.new_better;
    sorted = new_entry;
  }

  better_first :
      (b : Account PriceLevel) → better ≡ some b → has_priority side b.val.price price ≡ true
  better_first b e = (place.after_better b e).0

  worse_last :
      (w : Account PriceLevel) → worse ≡ some w → has_priority side price w.val.price ≡ true
  worse_last w e = (place.before_worse w e).0

  -- Nothing changes behind the worse neighbor.
  behind :
      (w q : ℕ) (a : Account PriceLevel)
      → worse ≡ some a
      → a.val.price ≡ w
      → has_priority side w q ≡ true
      → st' q ≡ st q
  behind w q a is at k =
      let first : has_priority side price w ≡ true = rw at at (worse_last a is) in
      sp.elsewhere q (has_priority-ne_sym side price q (has_priority_trans side price w q first k))
        (beyond side price w q better
          (λ b e. has_priority_trans side b.val.price price w (better_first b e) first) k)
        (λ v e. let same : v ≡ a = ground arith in ground (arith, has_priority-ne_sym side w q k))

  worse-Entry :
      (a : Account PriceLevel) (w : ℕ)
      → worse ≡ some a
      → a.val.price ≡ w
      → Entry side st' (some price) w (record a.val { better_price = some price })
  worse-Entry a w is at = record {
    stored = ap st' (sym at) ∙ sp.at_worse a is;
    priced = at;
    back = refl;
    sorted = λ b e. let same : price ≡ b = ground arith in rw same at (rw at at (worse_last a is));
  }

  better-Entry :
      (b : Account PriceLevel) (q : ℕ) (previous : Option ℕ) (l : PriceLevel)
      → better ≡ some b
      → b.val.price ≡ q
      → l ≡ b.val
      → Entry side st previous q l
      → Entry side st' previous q (record b.val { worse_price = some price })
  better-Entry b q previous l is at same n = record {
    stored = ap st' (sym at) ∙ sp.at_better b is;
    priced = at;
    back = ground (arith, n.back);
    sorted = n.sorted;
  }

  -- Nothing changes before the better neighbor.
  ahead :
      (q : ℕ) (b : Account PriceLevel)
      → better ≡ some b
      → has_priority side q b.val.price ≡ true
      → st' q ≡ st q
  ahead q b is k =
      let first = has_priority_trans side q b.val.price price k (better_first b is) in
      sp.elsewhere q (has_priority-ne side q price first)
        (λ v e.
          let same : v ≡ b = ground arith in ground (arith, has_priority-ne side q b.val.price k))
        (λ w e.
          has_priority-ne side q w.val.price
            (has_priority_trans side q price w.val.price first (worse_last w e)))

  -- The rest of the list, from the gap on, with the new level in front.
  pub gap-IsChain :
      (gap here : Option ℕ) (qs : List ℕ)
      → IsChain side st gap here qs
      → here ≡ price_of worse
      → IsChain side st' (price_of better) (some price) (insert_price side price qs)
  unfolding IsChain insert_price
  gap-IsChain gap here [] c e = (refl, (new, (new_level-Entry, s.new_worse ∙ sym e ∙ c)))
  gap-IsChain gap here (w ∷ ws) (h, (l, (n, more))) e =
      let (a, (is, at)) = price_of-some worse w (sym e ∙ h) in
      let same : l ≡ a.val = ground (arith, n.stored, s.worse_stored a is) in
      let first : has_priority side price w ≡ true = rw at at (worse_last a is) in
      let rest : IsChain side st' (some w) l.worse_price ws =
        IsChain-frame side st st' w l.worse_price ws (λ q k. behind w q a is at k) more in
      rw first (
        refl,
        (
          new,
          (
            new_level-Entry,
            (
              s.new_worse ∙ sym e ∙ h,
              (
                record a.val { better_price = some price },
                (worse-Entry a w is at, rw (ap (λ v. v.worse_price) same) at rest),
              ),
            ),
          ),
        ),
      )

  -- The list up to and beyond the better neighbor.
  pub extended-IsChain :
      (b : Account PriceLevel) (previous here : Option ℕ) (qs : List ℕ)
      → better ≡ some b
      → IsChain side st previous here qs
      → mem b.val.price qs ≡ true
      → IsChain side st' previous here (insert_price side price qs)
  unfolding IsChain insert_price mem
  extended-IsChain b previous here [] is c k = absurd (ground arith)
  extended-IsChain b previous here (q ∷ qs) is (h, (l, (n, more))) k =
      elim (Bool-cases (b.val.price == q)) [
        | inl found ↦
            let at : b.val.price ≡ q = ground arith in
            let same : l ≡ b.val = ground (arith, n.stored, s.better_stored b is) in
            let first : has_priority side price q ≡ false =
              rw at at (has_priority-asymm side b.val.price price (better_first b is)) in
            let rest =
              gap-IsChain (some q) l.worse_price qs more
                (ap (λ v. v.worse_price) same ∙ (place.after_better b is).1) in
            rw first (
              h,
              (
                record b.val { worse_price = some price },
                (
                  better-Entry b q previous l is at same n,
                  rw (ap price_of is ∙ ap some at) at rest,
                ),
              ),
            )
        | inr later ↦
            let in_rest : mem b.val.price qs ≡ true = ground arith in
            let before : has_priority side q b.val.price ≡ true =
              IsChain-sorted side st q l.worse_price qs b.val.price more in_rest in
            let first : has_priority side price q ≡ false =
              has_priority-asymm side q price
                (has_priority_trans side q b.val.price price before (better_first b is)) in
            rw first (
              h,
              (
                l,
                (
                  record {
                    stored = ahead q b is before ∙ n.stored;
                    priced = n.priced;
                    back = n.back;
                    sorted = n.sorted;
                  },
                  extended-IsChain b (some q) l.worse_price qs is more in_rest,
                ),
              ),
            )
      ]
