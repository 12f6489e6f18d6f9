-- ===== src/Reclaim/Drain.antt =====
-- No device waits forever for the drain of core/static_route_reclaim.py.
use nso_adapter.Prelude.{
  ℕ, zero, suc, ◌+◌, ◌≤◌, ◌<◌, ◌≡◌, refl, ap, ◌∙◌, Bool, true, false, ◌&&◌, ◌||◌, Option, List, [],
  ◌∷◌, ◌==◌, ltb, length, ◌⊎◌, inl, inr, Bool-cases, arith, and-parts, and-both,
}
use nso_adapter.DeletedRoutes.{elem}
use nso_adapter.Reclaim.{
  Carrier, Store, Tick, is_eligible, insert_id, device_ids, limited, devices_after, last_id,
  next_cursor, reclaim_succeeded_tombstones,
}

-- Above a number, and rising.
Chain : ℕ → List ℕ → Type 0
Chain c [] = Unit
Chain c (a ∷ rest) = (c < a) × Chain a rest

insert-Chain : (c n : ℕ) (l : List ℕ) → c < n → Chain c l → Chain c (insert_id n l)
unfolding Chain insert_id
insert-Chain c n [] h chain = (h, tt)
insert-Chain c n (a ∷ rest) h chain = elim (Bool-cases (ltb n a)) [
  | inl e ↦ rw e ((h, (ground arith, chain.1)))
  | inr e ↦ elim (Bool-cases (n == a)) [
    | inl e' ↦ rw (e, e') chain
    | inr e' ↦ rw (e, e') ((chain.0, insert-Chain a n rest (ground arith) chain.1))
  ]
]

ids-Chain :
    (c : ℕ) (wanted : Carrier → Bool) (rows : List Carrier)
    → Chain c (device_ids (λ row. ltb c row.device_id && wanted row) rows)
unfolding Chain device_ids
ids-Chain c wanted [] = tt
ids-Chain c wanted (row ∷ rest) = elim (Bool-cases (ltb c row.device_id && wanted row)) [
  | inl e ↦
      let (above, _) = and-parts (ltb c row.device_id) (wanted row) e in
      rw e (insert-Chain c row.device_id _ (ground arith) (ids-Chain c wanted rest))
  | inr e ↦ rw e (ids-Chain c wanted rest)
]

limited-Chain : (n c : ℕ) (l : List ℕ) → Chain c l → Chain c (limited n l)
unfolding Chain limited
limited-Chain zero c l chain = tt
limited-Chain (suc n) c [] chain = tt
limited-Chain (suc n) c (a ∷ rest) chain = (chain.0, limited-Chain n a rest chain.1)

Chain-lt : (c d : ℕ) (l : List ℕ) → Chain c l → elem d l ≡ true → c < d
unfolding Chain elem
Chain-lt c d [] chain m = cc m
Chain-lt c d (a ∷ rest) chain m = elim (Bool-cases (d == a)) [
  | inl e ↦ let h = chain.0 in ground arith
  | inr e ↦ let later = Chain-lt a d rest chain.1 (rw e at m) in let h = chain.0 in omega arith
]

-- Of a rising list, a prefix of at most `b` numbers has `d`, or it is full and ends below `d`.
reaches :
    (b c d : ℕ) (l : List ℕ)
    → Chain c l
    → elem d l ≡ true
    → (elem d (limited b l) ≡ true)
      ⊎ ((length (limited b l) ≡ b)
          × (last_id c (limited b l) < d)
          × (c + b ≤ last_id c (limited b l)))
unfolding Chain elem limited last_id
reaches zero c d l chain m = inr (refl, Chain-lt c d l chain m, omega arith)
reaches (suc b) c d [] chain m = cc m
reaches (suc b) c d (a ∷ rest) chain m = elim (Bool-cases (d == a)) [
  | inl e ↦ inl (rw e refl)
  | inr e ↦ elim (reaches b a d rest chain.1 (rw e at m)) [
    | inl found ↦ inl (rw (e, found) refl)
    | inr (full, below, far) ↦ let h = chain.0 in inr (ap suc full, below, omega arith)
  ]
]

-- Some carrier of the device, among the rows, is wanted.
unfoldable pub waits : (Carrier → Bool) → ℕ → List Carrier → Bool
waits wanted d [] = false
waits wanted d (row ∷ rest) = (d == row.device_id && wanted row) || waits wanted d rest

elem-insert : (d n : ℕ) (l : List ℕ) → (d == n || elem d l) ≡ true → elem d (insert_id n l) ≡ true
unfolding elem insert_id
elem-insert d n [] h = h
elem-insert d n (a ∷ rest) h = elim (Bool-cases (ltb n a)) [
  | inl e ↦ rw e h
  | inr e ↦ elim (Bool-cases (n == a)) [
    | inl e' ↦ rw (e, e') (ground arith)
    | inr e' ↦ elim (Bool-cases (d == a)) [
      | inl e'' ↦ rw (e, e', e'') refl
      | inr e'' ↦ rw (e, e', e'') (elem-insert d n rest (rw e'' at h))
    ]
  ]
]

waits-elem :
    (c d : ℕ) (wanted : Carrier → Bool) (rows : List Carrier)
    → c < d
    → waits wanted d rows ≡ true
    → elem d (device_ids (λ row. ltb c row.device_id && wanted row) rows) ≡ true
unfolding elem device_ids waits
waits-elem c d wanted [] above h = cc h
waits-elem c d wanted (row ∷ rest) above h = elim (Bool-cases (d == row.device_id && wanted row)) [
  | inl e ↦
      let (same, want) = and-parts (d == row.device_id) (wanted row) e in
      let passes : (ltb c row.device_id && wanted row) ≡ true = and-both (ground arith) want in
      rw passes (elem-insert d row.device_id _ (rw same refl))
  | inr e ↦
      let later = waits-elem c d wanted rest above (rw e at h) in
      elim (Bool-cases (ltb c row.device_id && wanted row)) [
        | inl e' ↦ rw e' (elem-insert d row.device_id _ (or-later (d == row.device_id) later))
        | inr e' ↦ rw e' later
      ]
]
  where
    or-later : (a : Bool) {b : Bool} → b ≡ true → (a || b) ≡ true
    or-later true h = refl
    or-later false h = h

-- No carrier is of a device past `top`.
unfoldable pub UpTo : ℕ → List Carrier → Type 0
UpTo top [] = Unit
UpTo top (row ∷ rest) = (row.device_id ≤ top) × UpTo top rest

Under : ℕ → List ℕ → Type 0
Under top [] = Unit
Under top (a ∷ rest) = (a ≤ top) × Under top rest

insert-Under : (top n : ℕ) (l : List ℕ) → n ≤ top → Under top l → Under top (insert_id n l)
unfolding Under insert_id
insert-Under top n [] h under = (h, tt)
insert-Under top n (a ∷ rest) h under = elim (Bool-cases (ltb n a)) [
  | inl e ↦ rw e ((h, under))
  | inr e ↦ elim (Bool-cases (n == a)) [
    | inl e' ↦ rw (e, e') under
    | inr e' ↦ rw (e, e') ((under.0, insert-Under top n rest h under.1))
  ]
]

ids-Under :
    (top : ℕ) (wanted : Carrier → Bool) (rows : List Carrier)
    → UpTo top rows
    → Under top (device_ids wanted rows)
unfolding UpTo Under device_ids
ids-Under top wanted [] h = tt
ids-Under top wanted (row ∷ rest) h = elim (Bool-cases (wanted row)) [
  | inl e ↦ rw e (insert-Under top row.device_id _ h.0 (ids-Under top wanted rest h.1))
  | inr e ↦ rw e (ids-Under top wanted rest h.1)
]

limited-Under : (n top : ℕ) (l : List ℕ) → Under top l → Under top (limited n l)
unfolding Under limited
limited-Under zero top l h = tt
limited-Under (suc n) top [] h = tt
limited-Under (suc n) top (a ∷ rest) h = (h.0, limited-Under n top rest h.1)

last-between :
    (c top a : ℕ) (l : List ℕ)
    → Chain c (a ∷ l)
    → Under top (a ∷ l)
    → (c < last_id a l) × (last_id a l ≤ top)
unfolding Chain Under last_id
last-between c top a [] chain under = (chain.0, under.0)
last-between c top a (b ∷ rest) chain under =
    let (above, below) = last-between a top b rest chain.1 under.1 in
    let h = chain.0 in (omega arith, below)

-- The next cursor is back at the start, or it is further on, and then below the top.
next-moves :
    (budget c top : ℕ) (batch : List ℕ)
    → Chain c batch
    → Under top batch
    → (next_cursor budget batch ≡ 0)
      ⊎ ((c < next_cursor budget batch) × (next_cursor budget batch ≤ top))
next-moves budget c top [] chain under = inl refl
next-moves budget c top (a ∷ rest) chain under =
    elim (Bool-cases (ltb (length (a ∷ rest)) budget)) [
      | inl e ↦ inl (rw e refl)
      | inr e ↦ inr (rw e (last-between c top a rest chain under))
    ]

next-full :
    (budget c : ℕ) (batch : List ℕ)
    → 0 < budget
    → length batch ≡ budget
    → next_cursor budget batch ≡ last_id c batch
unfolding last_id
next-full budget c [] positive full = ground arith
next-full budget c (a ∷ rest) positive full =
    let e : ltb (length (a ∷ rest)) budget ≡ false = ground arith in rw e refl

-- A tick with a positive budget.
tick_lem :
    (one : ℕ → Option (ℕ × ℕ)) (store : Store) (budget c : ℕ)
    → 0 < budget
    → ((reclaim_succeeded_tombstones one store budget c).looked_at ≡ devices_after store c budget)
      × ((reclaim_succeeded_tombstones one store budget c).cursor
          ≡ next_cursor budget (devices_after store c budget))
unfolding reclaim_succeeded_tombstones
tick_lem one store budget c h =
    let positive : (budget == 0) ≡ false = ground arith in (rw positive refl, rw positive refl)

-- The ticks of the drain, from a cursor: at the n-th one the store is `store n`, and what becomes of
-- the devices is `one n`.
module _ (one : ℕ → ℕ → Option (ℕ × ℕ)) (store : ℕ → Store) (budget start : ℕ) where
  unfoldable pub cursor_at : ℕ → ℕ
  cursor_at zero = start
  cursor_at (suc n) = (reclaim_succeeded_tombstones (one n) (store n) budget (cursor_at n)).cursor

  unfoldable pub tick : ℕ → Tick
  tick n = reclaim_succeeded_tombstones (one n) (store n) budget (cursor_at n)

  module _ (d top : ℕ) (takes : 0 < budget)
      (waiting : (n : ℕ) → waits (is_eligible (store n)) d (store n).carriers ≡ true)
      (few : (n : ℕ) → UpTo top (store n).carriers) where
    batch : ℕ → List ℕ
    batch n = devices_after (store n) (cursor_at n) budget

    Looked : Type 0
    Looked = (n : ℕ) × (elem d (tick n).looked_at ≡ true)

    looks : (n : ℕ) → (tick n).looked_at ≡ batch n
    unfolding tick batch
    looks n = (tick_lem (one n) (store n) budget (cursor_at n) takes).0

    moves : (n : ℕ) → cursor_at (suc n) ≡ next_cursor budget (batch n)
    unfolding cursor_at batch
    moves n = (tick_lem (one n) (store n) budget (cursor_at n) takes).1

    -- Below the device, a tick takes it or comes nearer to it.
    approach :
        (n : ℕ)
        → cursor_at n < d
        → (elem d (batch n) ≡ true) ⊎ ((cursor_at n < cursor_at (suc n)) × (cursor_at (suc n) < d))
    unfolding batch devices_after
    approach n below =
        let c = cursor_at n in
        let rows = (store n).carriers in
        elim (reaches budget c d _ (ids-Chain c (is_eligible (store n)) rows)
          (waits-elem c d (is_eligible (store n)) rows below (waiting n))) [
            | inl found ↦ inl found
            | inr (full, under, far) ↦
                let same = moves n ∙ next-full budget c (batch n) takes full in
                inr (rw same ((omega arith, under)))
          ]

    approaches : (k n : ℕ) → d ≤ cursor_at n + k → cursor_at n < d → Looked
    unfolding Looked
    approaches zero n near below = ground arith
    approaches (suc k) n near below = elim (approach n below) [
      | inl found ↦ (n, ap (elem d) (looks n) ∙ found)
      | inr (further, still) ↦ approaches k (suc n) (omega arith) still
    ]

    -- A tick starts again at zero, or it goes further towards the top.
    goes_on :
        (n : ℕ)
        → (cursor_at (suc n) ≡ 0) ⊎ ((cursor_at n < cursor_at (suc n)) × (cursor_at (suc n) ≤ top))
    unfolding batch devices_after
    goes_on n =
        let c = cursor_at n in
        let rows = (store n).carriers in
        let wanted = λ (row : Carrier). ltb c row.device_id && is_eligible (store n) row in
        rw (moves n) (
          next-moves budget c top (batch n)
            (limited-Chain budget c _ (ids-Chain c (is_eligible (store n)) rows))
            (limited-Under budget top _ (ids-Under top wanted rows (few n))))

    wraps : (k n : ℕ) → 0 < d → top ≤ cursor_at n + k → Looked
    wraps zero n positive near = elim (goes_on n) [
      | inl again ↦ approaches d (suc n) (omega arith) (rw again positive)
      | inr (further, bounded) ↦ ground arith
    ]
    wraps (suc k) n positive near = elim (goes_on n) [
      | inl again ↦ approaches d (suc n) (omega arith) (rw again positive)
      | inr (further, bounded) ↦ wraps k (suc n) positive (omega arith)
    ]

    -- The ticks of the drain, with a positive budget, from any cursor: a device of positive id that
    -- has, at every tick, a tombstone whose owning job succeeded is looked at by one of them, if no
    -- device's id is past a bound that holds at all ticks. The store may change from tick to tick,
    -- and a tick may fail on devices.
    pub no_device_starves : 0 < d → (n : ℕ) × (elem d (tick n).looked_at ≡ true)
    unfolding Looked
    no_device_starves positive = wraps top 0 positive (omega arith)
