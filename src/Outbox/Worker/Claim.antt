-- ===== src/Outbox/Worker/Claim.antt =====
-- Which rows `claimPending` takes, seen from one row of the table, and what its statement makes of
-- that row.
use ma_secure.Base.{
  ℕ, zero, suc, ◌<◌, String, some, true, false, ◌≡◌, ◌≢◌, ◌⊎◌, inl, inr, refl, sym, ◌∙◌, ap, eq_iff,
  List, [], ◌∷◌, map, All, IsDistinct, length, arith, Bool-cases,
}
use ma_secure.Base.Int.{ltb_ℤ}
use ma_secure.Base.Keyed.{find, update, find-update}
use ma_secure.Outbox.Worker.{
  Row, row_key, is_due, due_rows, insert_row, order_rows, limit, claimed_rows, start, start_all,
  batch_size,
}
use ma_secure.Outbox.Worker.Laws.{
  All-limit, All-insert_row, All-order_rows, All-due_rows, map-All, map-update, Spares-update,
  Spares-start_all,
}

-- No row of the list has the key; the row is the only one of the list with its key.
abbrev pub Absent : String → List Row → Type 0
Absent id cs = All (λ c. c.id ≢ id) cs

abbrev pub Once : String → Row → List Row → Type 0
Once id r [] = ⊥
Once id r (c ∷ cs) = ((c ≡ r) × Absent id cs) ⊎ ((c.id ≢ id) × Once id r cs)

module _ (id : String) (r : Row) (own : r.id ≡ id) where
  Absent-keys :
      (c : Row) (rs : List Row) → c.id ≡ id → All (λ y. c.id ≢ y) (map row_key rs) → Absent id rs
  Absent-keys c [] e h = tt
  Absent-keys c (x ∷ rs) e (h, hs) = ((λ k. h (e ∙ sym k)), Absent-keys c rs e hs)

  Once-find :
      (rs : List Row) → IsDistinct (map row_key rs) → find row_key id rs ≡ some r → Once id r rs
  unfolding find
  Once-find [] d h = absurd (cc h)
  Once-find (c ∷ cs) (d, ds) h = elim (same_or_not c.id id) [
    | inl e ↦ inl (ground (arith, eq_iff c.id id), Absent-keys c cs e d)
    | inr n ↦ inr (n, Once-find cs ds (ground (arith, eq_iff c.id id)))
  ]
    where
      same_or_not : (i j : String) → (i ≡ j) ⊎ (i ≢ j)
      same_or_not i j = ground (arith, eq_iff i j)

  Absent-due_rows : (now : ℕ) (rs : List Row) → Absent id rs → Absent id (due_rows now rs)
  Absent-due_rows now rs h =
      map-All _ (λ c. c.id ≢ id) _ (λ c p. p.0) (All-due_rows (λ c. c.id ≢ id) now rs h)

  Once-due_rows :
      (now : ℕ) (rs : List Row) → is_due now r ≡ true → Once id r rs → Once id r (due_rows now rs)
  unfolding due_rows
  Once-due_rows now [] due o = elim o [ ]
  Once-due_rows now (c ∷ cs) due (inl (e, a)) =
      rw (ap (is_due now) e ∙ due) (inl (e, Absent-due_rows now cs a))
  Once-due_rows now (c ∷ cs) due (inr (n, o)) = elim (Bool-cases (is_due now c)) [
    | inl e ↦ rw e (inr (n, Once-due_rows now cs due o))
    | inr e ↦ rw e (Once-due_rows now cs due o)
  ]

  Once-not_due :
      (now : ℕ) (rs : List Row) → is_due now r ≡ false → Once id r rs → Absent id (due_rows now rs)
  unfolding due_rows
  Once-not_due now [] late o = elim o [ ]
  Once-not_due now (c ∷ cs) late (inl (e, a)) =
      rw (ap (is_due now) e ∙ late) (Absent-due_rows now cs a)
  Once-not_due now (c ∷ cs) late (inr (n, o)) = elim (Bool-cases (is_due now c)) [
    | inl e ↦ rw e (n, Once-not_due now cs late o)
    | inr e ↦ rw e (Once-not_due now cs late o)
  ]

  Once-insert_row :
      (x : Row) (rs : List Row) → x.id ≢ id → Once id r rs → Once id r (insert_row x rs)
  unfolding insert_row
  Once-insert_row x [] n o = elim o [ ]
  Once-insert_row x (c ∷ cs) n o = elim (Bool-cases (ltb_ℤ c.next_retry_at x.next_retry_at)) [
    | inl e ↦ rw e (elim o [
      | inl (k, a) ↦ inl (k, All-insert_row (λ c. c.id ≢ id) x cs n a)
      | inr (k, p) ↦ inr (k, Once-insert_row x cs n p)
    ])
    | inr e ↦ rw e (inr (n, o))
  ]

  Once-insert_own : (c : Row) (rs : List Row) → c ≡ r → Absent id rs → Once id r (insert_row c rs)
  unfolding insert_row
  Once-insert_own c [] e a = inl (e, tt)
  Once-insert_own c (x ∷ xs) e (n, a) = elim (Bool-cases (ltb_ℤ x.next_retry_at c.next_retry_at)) [
    | inl h ↦ rw h (inr (n, Once-insert_own c xs e a))
    | inr h ↦ rw h (inl (e, (n, a)))
  ]

  Once-order_rows : (rs : List Row) → Once id r rs → Once id r (order_rows rs)
  unfolding order_rows
  Once-order_rows [] o = elim o [ ]
  Once-order_rows (c ∷ cs) (inl (e, a)) =
      Once-insert_own c (order_rows cs) e (All-order_rows (λ c. c.id ≢ id) cs a)
  Once-order_rows (c ∷ cs) (inr (n, o)) = Once-insert_row c (order_rows cs) n (Once-order_rows cs o)

  Once-limit :
      (n : ℕ) (rs : List Row)
      → Once id r rs
      → Once id r (limit n rs) ⊎ (Absent id (limit n rs) × (n < length rs))
  unfolding limit
  Once-limit zero [] o = elim o [ ]
  Once-limit (suc n) [] o = elim o [ ]
  Once-limit zero (c ∷ cs) o = inr (tt, omega arith)
  Once-limit (suc n) (c ∷ cs) (inl (e, a)) = inl (inl (e, All-limit (λ c. c.id ≢ id) n cs a))
  Once-limit (suc n) (c ∷ cs) (inr (k, o)) = elim (Once-limit n cs o) [
    | inl p ↦ inl (inr (k, p))
    | inr (p, q) ↦ inr ((k, p), omega arith)
  ]

length-insert_row : (x : Row) (rs : List Row) → length (insert_row x rs) ≡ suc (length rs)
unfolding insert_row
length-insert_row x [] = refl
length-insert_row x (c ∷ cs) = ground (arith, length-insert_row x cs)

length-order_rows : (rs : List Row) → length (order_rows rs) ≡ length rs
unfolding order_rows
length-order_rows [] = refl
length-order_rows (c ∷ cs) =
    omega (arith, length-insert_row c (order_rows cs), length-order_rows cs)

-- A row of the table is claimed, once, and then it is due; or it is not, and then it is not due or
-- there are more due rows than a batch takes.
pub claimed_rows-cases :
    (now : ℕ) (id : String) (r : Row) (rs : List Row)
    → r.id ≡ id
    → IsDistinct (map row_key rs)
    → find row_key id rs ≡ some r
    → (Once id r (claimed_rows now rs) × (is_due now r ≡ true))
      ⊎ (Absent id (claimed_rows now rs)
          × ((is_due now r ≡ false) ⊎ (batch_size < length (due_rows now rs))))
unfolding claimed_rows
claimed_rows-cases now id r rs own d found = elim (Bool-cases (is_due now r)) [
  | inl due ↦
      elim (Once-limit id r own batch_size (order_rows (due_rows now rs)) (
        Once-order_rows id r own (due_rows now rs)
          (Once-due_rows id r own now rs due (Once-find id r own rs d found)))) [
            | inl o ↦ inl (o, due)
            | inr (a, k) ↦ inr (a, inr (omega (arith, length-order_rows (due_rows now rs))))
          ]
  | inr late ↦ inr (
    All-limit (λ c. c.id ≢ id) batch_size _
        (All-order_rows (λ c. c.id ≢ id) _
          (Once-not_due id r own now rs late (Once-find id r own rs d found))),
    inl late,
  )
]

-- An update of the row's key changes the row.
pub update_own :
    (id c : String) (f : Row → Row) (rs : List Row) (r : Row)
    → c ≡ id
    → ((r : Row) → row_key (f r) ≡ row_key r)
    → find row_key id rs ≡ some r
    → find row_key id (update row_key c f rs) ≡ some (f r)
update_own id c f rs r e k found = ground (arith, find-update row_key c id f rs k, eq_iff c id)

-- A claimed row is `processing` afterwards, and the keys stay.
pub start_all-Once :
    (id : String) (r : Row) (cs rs : List Row)
    → r.id ≡ id
    → Once id r cs
    → find row_key id rs ≡ some r
    → (find row_key id (start_all cs rs) ≡ some (start r))
      × (map row_key (start_all cs rs) ≡ map row_key rs)
unfolding start_all
start_all-Once id r [] rs own o found = elim o [ ]
start_all-Once id r (c ∷ cs) rs own (inl (e, a)) found =
    let spared = Spares-start_all id cs (update row_key c.id start rs) a in
    (
      spared.row ∙ update_own id c.id start rs r (ap row_key e ∙ own) (λ r. refl) found,
      spared.keys ∙ map-update c.id start rs (λ r. refl),
    )
start_all-Once id r (c ∷ cs) rs own (inr (n, o)) found =
    let spared = Spares-update id c.id start rs (λ r. refl) n in
    let (f, k) = start_all-Once id r cs (update row_key c.id start rs) own o (spared.row ∙ found) in
    (f, k ∙ spared.keys)
