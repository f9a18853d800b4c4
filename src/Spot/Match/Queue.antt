-- ===== src/Spot/Match/Queue.antt =====
-- Links of the queue of a level when its head changes or leaves
-- (programs/tidebook/src/instructions/match_limit_order.rs).
use tidebook.Base.{
  ℕ, ◌+◌, ◌≡◌, refl, sym, ap, ◌∙◌, List, [], ◌∷◌, Option, none, some, false, Bool-cases, inl, inr,
  ◌==◌, arith,
}
use tidebook.State.{Pubkey, Order}
use tidebook.Spot.Queue.{Store, put, put-same, put-differs, IsLinked, link}

-- What two stores agree on: the orders that stand behind another one for which `P` holds.
record Agree (P : Pubkey → Type 0) (st st' : Store Order) : Type 1 where
  same :
      (q : Pubkey) (o : Order) (k : Pubkey)
      → st q ≡ some o
      → o.previous_order ≡ some k
      → P k
      → st' q ≡ some o
  closed : (q : Pubkey) (o : Order) (k : Pubkey) → st q ≡ some o → o.previous_order ≡ some k → P q

IsLinked-Agree :
    (P : Pubkey → Type 0) (st st' : Store Order) (level k : Pubkey) (here last : Option Pubkey)
    (total : ℕ) (ks : List Pubkey)
    → Agree P st st'
    → P k
    → IsLinked st level (some k) here last total ks
    → IsLinked st' level (some k) here last total ks
unfolding IsLinked
IsLinked-Agree P st st' level k here last total [] a p l = l
IsLinked-Agree P st st' level k here last total (q ∷ qs) a p (h, (o, (n, (rest, (t, more))))) =
    link st' level (some k) here last total q qs o rest h
      (record {
        stored = a.same q o k n.stored n.back p;
        rests_here = n.rests_here;
        still_open = n.still_open;
        back = n.back;
      })
      t
      (IsLinked-Agree P st st' level q o.next_order last rest qs a (a.closed q o k n.stored n.back)
        more)

-- An order behind another one is not the head.
is-behind :
    (st : Store Order) (m q k : Pubkey) (maker o : Order)
    → st m ≡ some maker
    → maker.previous_order ≡ none
    → st q ≡ some o
    → o.previous_order ≡ some k
    → (q == m) ≡ false
is-behind st m q k maker o sm pm sq pq = elim (Bool-cases (q == m)) [
  | inl same ↦ absurd (ground arith)
  | inr differs ↦ differs
]

-- An order behind one that is not the head is not the head's successor.
not_successor :
    (st : Store Order) (x q m k : Pubkey) (successor o : Order)
    → st x ≡ some successor
    → successor.previous_order ≡ some m
    → st q ≡ some o
    → o.previous_order ≡ some k
    → (k == m) ≡ false
    → (q == x) ≡ false
not_successor st x q m k successor o sx px sq pq ne = elim (Bool-cases (q == x)) [
  | inl same ↦ absurd (ground arith)
  | inr differs ↦ differs
]

-- The head's remainder changes and all else stays.
pub IsLinked-partial :
    (st : Store Order) (level m : Pubkey) (last : Option Pubkey) (total total' left locked fill : ℕ)
    (ks : List Pubkey) (maker : Order)
    → IsLinked st level none (some m) last total ks
    → st m ≡ some maker
    → left + fill ≡ maker.remaining_quantity
    → total' + fill ≡ total
    → IsLinked
        (put m (record maker { remaining_quantity = left; locked_collateral = locked }) st)
        level
        none
        (some m)
        last
        total'
        ks
unfolding IsLinked
IsLinked-partial st level m last total total' left locked fill [] maker (h, _, _) s l t =
    absurd (ground arith)
IsLinked-partial st level m last total total' left locked fill (k ∷ ks) maker
      (h, (o, (n, (rest, (e, more))))) s l t =
    let maker' = record maker { remaining_quantity = left; locked_collateral = locked } in
    let st' = put m maker' st in
    let at : k ≡ m = ground arith in
    let same : o ≡ maker = ground (arith, n.stored) in
    let top : maker.previous_order ≡ none = ground (arith, n.back) in
    let agree : Agree (λ _. Unit {0}) st st' = record {
      same = λ q p k' sq pq _.
          put-differs m q maker' st (is-behind st m q k' maker p s top sq pq) ∙ sq;
      closed = λ _ _ _ _ _. tt;
    } in
    link st' level none (some m) last total' k ks maker' rest h
      (record {
        stored = rw at (put-same m maker' st);
        rests_here = ground (arith, n.rests_here);
        still_open = ground (arith, n.still_open);
        back = top;
      })
      (ground arith)
      (rw (ap (λ p. p.next_order) same) at
        (IsLinked-Agree (λ _. Unit {0}) st st' level k o.next_order last rest ks agree tt more))

-- The head leaves and its successor becomes the head.
pub IsLinked-full :
    (st : Store Order) (level m x : Pubkey) (last : Option Pubkey) (total total' : ℕ) (k : Pubkey)
    (ks : List Pubkey) (maker maker' successor : Order)
    → IsLinked st level none (some m) last total (k ∷ ks)
    → st m ≡ some maker
    → maker.next_order ≡ some x
    → st x ≡ some successor
    → total' + maker.remaining_quantity ≡ total
    → IsLinked
        (put m maker' (put x (record successor { previous_order = none }) st))
        level
        none
        (some x)
        last
        total'
        ks
unfolding IsLinked
IsLinked-full st level m x last total total' k [] maker maker' successor
      (h, (o, (n, (rest, (e, (c, _, _)))))) s nx sx t =
    absurd (ground (arith, n.stored))
IsLinked-full st level m x last total total' k (y ∷ ys) maker maker' successor
      (h, (o, (n, (rest, (e, (c, (v, (w, (more_total, (f, more)))))))))) s nx sx t =
    let head' = record successor { previous_order = none } in
    let st' = put m maker' (put x head' st) in
    let same : o ≡ maker = ground (arith, n.stored) in
    let top : maker.previous_order ≡ none = ground (arith, n.back) in
    let at : y ≡ x = ground arith in
    let is : v ≡ successor = ground (arith, w.stored) in
    let behind : successor.previous_order ≡ some m = ground (arith, w.back) in
    let apart = is-behind st m x m maker successor s top sx behind in
    let agree : Agree (λ q. (q == m) ≡ false) st st' = record {
      same = λ q p k' sq pq ne.
          put-differs m q maker' (put x head' st) (is-behind st m q k' maker p s top sq pq)
          ∙ put-differs x q head' st (not_successor st x q m k' successor p sx behind sq pq ne)
          ∙ sq;
      closed = λ q p k' sq pq. is-behind st m q k' maker p s top sq pq;
    } in
    link st' level none (some x) last total' y ys head' more_total (ap some (sym at))
      (record {
        stored = rw at (put-differs m x maker' (put x head' st) apart ∙ put-same x head' st);
        rests_here = ground (arith, w.rests_here);
        still_open = ground (arith, w.still_open);
        back = refl;
      })
      (ground arith)
      (rw (ap (λ p. p.next_order) is) at (
        IsLinked-Agree (λ q. (q == m) ≡ false) st st' level y v.next_order last more_total ys agree
          (rw at apart) more))
