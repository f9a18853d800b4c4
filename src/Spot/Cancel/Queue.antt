-- ===== src/Spot/Cancel/Queue.antt =====
-- An order leaves a queue from any place
-- (programs/tidebook/src/instructions/cancel_limit_order.rs).
use tidebook.Base.{
  ℕ, ◌+◌, ◌≡◌, ◌≢◌, refl, sym, ap, ◌∙◌, List, [], ◌∷◌, Option, none, some, opt_eq, true, false,
  Bool-cases, inl, inr, ◌==◌, arith,
}
use tidebook.State.{Pubkey, Account, Order}
use tidebook.Spot.Match.Steps.{key_of}
use tidebook.Spot.Cancel.Remove.{remove}
use tidebook.Spot.Cancel.Neighbors.{Neighbors, last_after, here_after, first_back, mem_next}
use tidebook.Spot.Queue.{Store, Node, IsLinked, link, mem, distinct}

-- What a store holds after the neighbors are linked to each other.
pub record Unlinks (st st' : Store Order) (x : Pubkey) (o : Order)
    (previous next : Option (Account Order)) : Type 0 where
  pub at_previous :
      (p : Account Order)
      → previous ≡ some p
      → st' p.key ≡ some (record p.val { next_order = o.next_order })
  pub at_next :
      (n : Account Order)
      → next ≡ some n
      → st' n.key ≡ some (record n.val { previous_order = o.previous_order })
  pub elsewhere :
      (q : Pubkey)
      → (q == x) ≡ false
      → ((p : Account Order) → previous ≡ some p → (q == p.key) ≡ false)
      → ((n : Account Order) → next ≡ some n → (q == n.key) ≡ false)
      → st' q ≡ st q

key_of-some :
    (a : Option (Account Order)) (k : Pubkey)
    → key_of a ≡ some k
    → (x : Account Order) × ((a ≡ some x) × (x.key ≡ k))
key_of-some none k e = absurd (ground arith)
key_of-some (some x) k e = (x, (refl, ground arith))

not_key :
    (a : Option (Account Order)) (q : Pubkey)
    → key_of a ≢ some q
    → (x : Account Order) → a ≡ some x
    → (q == x.key) ≡ false
not_key a q f x e = elim (Bool-cases (q == x.key)) [
  | inl same ↦ absurd (f (ground arith))
  | inr differs ↦ differs
]

-- A part of a queue on which two stores agree.
IsLinked-agree :
    (st st' : Store Order) (level : Pubkey) (previous here last : Option Pubkey) (total : ℕ)
    (ks : List Pubkey)
    → ((q : Pubkey) → mem q ks ≡ true → st' q ≡ st q)
    → IsLinked st level previous here last total ks
    → IsLinked st' level previous here last total ks
unfolding IsLinked mem
IsLinked-agree st st' level previous here last total [] f l = l
IsLinked-agree st st' level previous here last total (k ∷ ks) f (h, (o, (n, (rest, (t, more))))) =
    link st' level previous here last total k ks o rest h
      (record {
        stored = f k (ground arith) ∙ n.stored;
        rests_here = n.rests_here;
        still_open = n.still_open;
        back = n.back;
      })
      t
      (IsLinked-agree st st' level (some k) o.next_order last rest ks (λ q m. f q (ground arith))
        more)

module _ (st st' : Store Order) (level x : Pubkey) (o : Order)
    (previous next : Option (Account Order)) (nb : Neighbors st x o previous next)
    (un : Unlinks st st' x o previous next) where
  untouched :
      (q : Pubkey)
      → (q == x) ≡ false
      → o.previous_order ≢ some q
      → o.next_order ≢ some q
      → st' q ≡ st q
  untouched q ne np nn =
      un.elsewhere q ne (not_key previous q (λ e. np (nb.previous_is ∙ e)))
        (not_key next q (λ e. nn (nb.next_is ∙ e)))

  last_kept : (last : Option Pubkey) (n : Pubkey) → o.next_order ≡ some n → last_after o last ≡ last
  last_kept last n e = ground arith

  -- The orders behind the one that leaves.
  IsLinked-behind :
      (gap last : Option Pubkey) (total : ℕ) (ks : List Pubkey)
      → o.previous_order ≡ gap
      → mem x ks ≡ false
      → ((p : Pubkey) → gap ≡ some p → mem p ks ≡ false)
      → distinct ks ≡ true
      → IsLinked st level (some x) o.next_order last total ks
      → IsLinked st' level gap o.next_order (last_after o last) total ks
  unfolding IsLinked mem distinct
  IsLinked-behind gap last total [] g mx mp d (e, l, t) = (e, ground arith, t)
  IsLinked-behind gap last total (n ∷ ns) g mx mp d (e, (v, (w, (rest, (t, more))))) =
      let (a, (is, at)) = key_of-some next n (sym nb.next_is ∙ e) in
      let same : v ≡ a.val = ground (arith, w.stored, nb.next_stored a is) in
      let v' = record v { previous_order = o.previous_order } in
      let node : Node st' level gap n v' = record {
        stored = ap st' (sym at) ∙ un.at_next a is ∙ ground arith;
        rests_here = w.rests_here;
        still_open = w.still_open;
        back = g;
      } in
      let rest_same : IsLinked st' level (some n) v.next_order last rest ns =
        IsLinked-agree st st' level (some n) v.next_order last rest ns
          (λ q m.
            untouched q (ground arith) (λ b. ground (arith, mp q (sym g ∙ b))) (λ b. ground arith))
          more in
      (e, (v', (node, (rest, (t, rw (last_kept last n e) rest_same)))))

  -- An order ahead of the one that leaves: its link follows if it pointed there.
  kept :
      (gap : Option Pubkey) (k : Pubkey) (v : Order) (rest : ℕ) (last : Option Pubkey)
      (ks : List Pubkey)
      → Node st level gap k v
      → IsLinked st level (some k) v.next_order last rest ks
      → (k == x) ≡ false
      → mem x ks ≡ true
      → mem k ks ≡ false
      → (v' : Order) × (Node st' level gap k v'
          × ((v'.remaining_quantity ≡ v.remaining_quantity)
              × (v'.next_order ≡ here_after x o v.next_order)))
  kept gap k v rest last ks w more differs m d = elim (Bool-cases (opt_eq v.next_order (some x))) [
    | inl points ↦
        let b : o.previous_order ≡ some k =
          first_back st level x o previous next nb (some k) v.next_order last rest ks more
            (ground arith) in
        let (a, (is, at)) = key_of-some previous k (sym nb.previous_is ∙ b) in
        let same : v ≡ a.val = ground (arith, w.stored, nb.previous_stored a is) in
        (
          record v { next_order = o.next_order },
          (
            record {
              stored = ap st' (sym at) ∙ un.at_previous a is ∙ ground arith;
              rests_here = w.rests_here;
              still_open = w.still_open;
              back = w.back;
            },
            (refl, ground arith),
          ),
        )
    | inr other_way ↦
        let no_previous : o.previous_order ≢ some k = λ b.
          let (a, (is, at)) = key_of-some previous k (sym nb.previous_is ∙ b) in
          let same : v ≡ a.val = ground (arith, w.stored, nb.previous_stored a is) in
          ground (arith, nb.previous_links a is) in
        let no_next : o.next_order ≢ some k = λ b. ground (
          arith,
          mem_next st level x o previous next nb (some k) v.next_order last rest ks k more m b,
        ) in
        (
          v,
          (
            record {
              stored = untouched k differs no_previous no_next ∙ w.stored;
              rests_here = w.rests_here;
              still_open = w.still_open;
              back = w.back;
            },
            (refl, ground arith),
          ),
        )
  ]

  -- The queue without the order.
  pub IsLinked-remove :
      (gap here last : Option Pubkey) (total : ℕ) (ks : List Pubkey)
      → IsLinked st level gap here last total ks
      → mem x ks ≡ true
      → ((p : Pubkey) → gap ≡ some p → mem p ks ≡ false)
      → distinct ks ≡ true
      → (left : ℕ) × ((left + o.remaining_quantity ≡ total)
          × IsLinked st' level gap (here_after x o here) (last_after o last) left (remove x ks))
  unfolding IsLinked mem distinct remove
  IsLinked-remove gap here last total [] l m mp d = absurd (ground arith)
  IsLinked-remove gap here last total (k ∷ ks) (h, (v, (w, (rest, (t, more))))) m mp d =
      elim (Bool-cases (k == x)) [
        | inl found ↦
            let at : k ≡ x = ground arith in
            let same : v ≡ o = ground (arith, w.stored, nb.order_stored) in
            let tail : IsLinked st level (some x) o.next_order last rest ks =
              rw at at (rw (ap (λ y. y.next_order) same) at more) in
            let here_is : here_after x o here ≡ o.next_order = ground arith in
            let list_is : remove x (k ∷ ks) ≡ ks = ground arith in
            let back : o.previous_order ≡ gap = ground (arith, w.back) in
            (
              rest,
              (
                ground arith,
                rw (here_is, list_is)
                    (IsLinked-behind gap last rest ks back (ground arith)
                      (λ p e. ground (arith, mp p e)) (ground arith) tail),
              ),
            )
        | inr differs ↦
            let here_is : here_after x o here ≡ some k = ground arith in
            let list_is : remove x (k ∷ ks) ≡ k ∷ remove x ks = ground arith in
            let (left, (sum, chain)) =
              IsLinked-remove (some k) v.next_order last rest ks more (ground arith)
                (λ p e. ground arith) (ground arith) in
            let (v', (node, (amount, after))) =
              kept gap k v rest last ks w more differs (ground arith) (ground arith) in
            (
              v.remaining_quantity + left,
              (
                ground arith,
                rw (here_is, list_is)
                    (link st' level gap (some k) (last_after o last) (v.remaining_quantity + left) k
                      (remove x ks) v' left refl node (ground arith) (rw after chain)),
              ),
            )
      ]
