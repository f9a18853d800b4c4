-- ===== src/Spot/Ladder/Remove.antt =====
-- A level leaves the list of levels of its side, its neighbors linked to each other
-- (`PriceLevel` of programs/tidebook/src/state.rs).
use tidebook.Base.{
  ℕ, ◌≡◌, refl, sym, ap, ◌∙◌, List, [], ◌∷◌, Option, none, some, opt_eq, true, false, Bool-cases,
  inl, inr, ◌==◌, arith, if◌then◌else◌,
}
use tidebook.State.{Account, OrderSide, has_priority, PriceLevel}
use tidebook.Spot.Cancel.Remove.{remove}
use tidebook.Spot.Insert.{price_of}
use tidebook.Spot.Ladder.{
  Levels, mem, IsChain, IsLadder, has_priority_trans, has_priority-ne, has_priority-ne_sym,
  IsChain-sorted, IsChain-frame,
}
use tidebook.Spot.Ladder.Borders.{
  Bordered, Dropped, above, price_of-some, better-named, worse-named,
}

-- Where the list begins once the level has left it.
abbrev pub first_after : Option ℕ → ℕ → PriceLevel → Option ℕ
first_after here x l = if opt_eq here (some x) then l.worse_price else here

mem-remove-other :
    (x q : ℕ) (ps : List ℕ) → (q == x) ≡ false → mem q ps ≡ true → mem q (remove x ps) ≡ true
unfolding mem remove
mem-remove-other x q [] d m = absurd (ground arith)
mem-remove-other x q (p ∷ ps) d m = ground (arith, mem-remove-other x q ps)

module _ (side : OrderSide) (st st' : Levels) (x : ℕ) (l : PriceLevel)
    (better worse : Option (Account PriceLevel)) (bd : Bordered side st x l better worse)
    (nb : l.better_price ≡ price_of better) (nw : l.worse_price ≡ price_of worse)
    (dr : Dropped x l better worse st st') where
  -- Nothing changes behind the worse neighbor.
  behind :
      (a : Account PriceLevel) (w q : ℕ)
      → worse ≡ some a
      → a.val.price ≡ w
      → has_priority side w q ≡ true
      → st' q ≡ st q
  behind a w q is at k =
      let first : has_priority side x w ≡ true = rw at at (bd.worse_behind a is) in
      let last = has_priority_trans side x w q first k in
      dr.elsewhere q (has_priority-ne_sym side x q last)
        (λ b e.
          has_priority-ne_sym side b.val.price q
            (has_priority_trans side b.val.price x q (bd.better_ahead b e) last))
        (λ v e. let same : v ≡ a = ground arith in ground (arith, has_priority-ne_sym side w q k))

  -- The part behind the level follows what was before it.
  rest-IsChain :
      (qs : List ℕ)
      → IsChain side st (some x) l.worse_price qs
      → IsChain side st' l.better_price l.worse_price qs
  unfolding IsChain
  rest-IsChain [] h = h
  rest-IsChain (w ∷ ws) (h, (v, (n, more))) =
      let (a, (is, at)) = price_of-some worse w (sym nw ∙ h) in
      let same : v ≡ a.val = ground (arith, n.stored, bd.worse_stored a is) in
      (
        h,
        (
          record a.val { better_price = l.better_price },
          (
            record {
              stored = ap st' (sym at) ∙ dr.at_worse a is;
              priced = at;
              back = refl;
              sorted = λ b e.
                  let (c, (found, here)) = price_of-some better b (sym nb ∙ e) in
                  rw here at (
                    has_priority_trans side c.val.price x w (bd.better_ahead c found)
                      (n.sorted x refl));
            },
            rw (sym (ap (λ (z : PriceLevel). z.worse_price) same))
                (IsChain-frame side st st' w v.worse_price ws (λ q k. behind a w q is at k) more),
          ),
        ),
      )

  -- A level before the one that leaves, which is not next to it, stays as it was.
  ahead :
      (p : ℕ) (v : PriceLevel)
      → st p ≡ some v
      → (p == x) ≡ false
      → has_priority side p x ≡ true
      → opt_eq v.worse_price (some x) ≡ false
      → st' p ≡ st p
  ahead p v stored differs first apart =
      dr.elsewhere p differs (λ b e. ground (arith, bd.better_stored b e, bd.better_points b e))
        (λ w e.
          has_priority-ne side p w.val.price
            (has_priority_trans side p x w.val.price first (bd.worse_behind w e)))

  IsChain-dropped :
      (gap here : Option ℕ) (ps : List ℕ)
      → IsChain side st gap here ps
      → mem x ps ≡ true
      → IsChain side st' gap (first_after here x l) (remove x ps)
  unfolding IsChain mem remove
  IsChain-dropped gap here [] c m = absurd (ground arith)
  IsChain-dropped gap here (p ∷ ps) (h, (v, (n, more))) m = elim (Bool-cases (p == x)) [
    | inl same ↦
        let at : p ≡ x = ground arith in
        let is : v ≡ l = ground (arith, n.stored, bd.stored) in
        let back : l.better_price ≡ gap = ground (arith, n.back) in
        let self : (x == x) ≡ true = ground arith in
        rw (h, at, self) (rw back at (rest-IsChain ps (rw (at, is) at more)))
    | inr differs ↦
        let first = IsChain-sorted side st p v.worse_price ps x more (ground arith) in
        let rest = IsChain-dropped (some p) v.worse_price ps more (ground arith) in
        rw (h, differs)
          (
            refl,
            elim (Bool-cases (opt_eq v.worse_price (some x))) [
              | inl next ↦
                  let down : v.worse_price ≡ some x = ground arith in
                  let up : l.better_price ≡ some p =
                    above side st x l bd.stored gap (some p) (p ∷ ps) p v (refl, (v, (n, more)))
                      (ground arith) n.stored down in
                  let (b, (is, at)) = price_of-some better p (sym nb ∙ up) in
                  let same : v ≡ b.val = ground (arith, n.stored, bd.better_stored b is) in
                  (
                    record b.val { worse_price = l.worse_price },
                    (
                      record {
                        stored = ap st' (sym at) ∙ dr.at_better b is;
                        priced = at;
                        back = ground (arith, n.back);
                        sorted = n.sorted;
                      },
                      rw next at rest,
                    ),
                  )
              | inr apart ↦ (
                v,
                (
                  record {
                    stored = ahead p v n.stored differs first apart ∙ n.stored;
                    priced = n.priced;
                    back = n.back;
                    sorted = n.sorted;
                  },
                  rw apart at rest,
                ),
              )
            ],
          )
  ]

  -- A level that is stored afterwards was in the list.
  kept :
      (best : Option ℕ) (ps : List ℕ)
      → IsLadder side st best ps
      → (q : ℕ) (v : PriceLevel) → st' q ≡ some v
      → (q == x) ≡ false
      → mem q ps ≡ true
  kept best ps ladder q v e differs = elim (Bool-cases (opt_eq (price_of better) (some q))) [
    | inl is_better ↦
        let (b, (is, at)) = price_of-some better q (ground arith) in
        rw at at (ladder.complete b.val.price b.val (bd.better_stored b is))
    | inr not_better ↦ elim (Bool-cases (opt_eq (price_of worse) (some q))) [
      | inl is_worse ↦
          let (w, (is, at)) = price_of-some worse q (ground arith) in
          rw at at (ladder.complete w.val.price w.val (bd.worse_stored w is))
      | inr not_worse ↦
          ladder.complete q v
            (sym (dr.elsewhere q differs (λ b is. ground arith) (λ w is. ground arith)) ∙ e)
    ]
  ]

  -- The levels stand for the list without the price.
  IsLadder-dropped :
      (best : Option ℕ) (ps : List ℕ)
      → IsLadder side st best ps
      → IsLadder side st' (first_after best x l) (remove x ps)
  IsLadder-dropped best ps ladder = record {
    chain = IsChain-dropped none best ps ladder.chain (ladder.complete x l bd.stored);
    complete = λ q v e. elim (Bool-cases (q == x)) [
      | inl same ↦ absurd (ground (arith, dr.gone))
      | inr differs ↦ mem-remove-other x q ps differs (kept best ps ladder q v e differs)
    ];
  }

module _ (side : OrderSide) (st : Levels) (x : ℕ) (l : PriceLevel) (best : Option ℕ) (ps : List ℕ)
    (ladder : IsLadder side st best ps) where
  -- A level leaves the list where its neighbors are linked to each other.
  pub IsLadder-drops :
      (st' : Levels) (better worse : Option (Account PriceLevel))
      → Bordered side st x l better worse
      → Dropped x l better worse st st'
      → IsLadder side st' (first_after best x l) (remove x ps)
  IsLadder-drops st' better worse bd dr =
      IsLadder-dropped side st st' x l better worse bd
        (better-named side st x l best ps ladder better worse bd)
        (worse-named side st x l best ps ladder better worse bd) dr best ps ladder
