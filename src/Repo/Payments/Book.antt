-- ===== src/Repo/Payments/Book.antt =====
-- The table `payments` as a book: at most one payment under a key, which CreatePayment, the lookups
-- and the update of the status keep to, whatever the order of the rows.
use abmcy_core_payment.Base.{
  ℕ, ◌+◌, String, Bool, true, false, ◌&&◌, Option, none, some, List, [], ◌∷◌, ◌≡◌, refl, sym, ap,
  subst, ◌∙◌, arith, ◌==◌, and_false, any, find, update, Option-cases, inl, inr, if◌then◌else◌,
}
use abmcy_core_payment.Model.{Payment, type_deposit}
use abmcy_core_payment.World.{World, Env, fine, Result, ok, statement}
use abmcy_core_payment.Repo.Payments.{
  PaymentParams, fits_columns, same_key, same_ref, refers, scan_payment, is_status, or_else,
  set_where, insert_payment, insert_or_nothing, fresh, create_payment, find_payment_by_app_ref_type,
  update_payment_status,
}
use abmcy_core_payment.Repo.Payments.Conflicts.{create_payment_existing}

pub record Key : Type 0 where
  pub app_id : String
  pub app_ref : String
  pub kind : String

abbrev pub key_of : Payment → Key
key_of p = record { app_id = p.app_id; app_ref = p.app_ref; kind = p.kind }

abbrev pub has_key : Key → Payment → Bool
has_key k p = p.app_id == k.app_id && (p.app_ref == k.app_ref && p.kind == k.kind)

abbrev pub Book : Type 0
Book = Key → Option Payment

-- The book of a table.
unfoldable pub book_of : World → Book
book_of w k = find (has_key k) w.payments

-- A payment is put under its key unless there is one.
abbrev pub or_new : Option Payment → Payment → Payment
or_new none p = p
or_new (some q) p = q

unfoldable pub put : Payment → Book → Book
put p b k = if has_key k p then some (or_new (b k) p) else b k

abbrev pub map_option : (Payment → Payment) → Option Payment → Option Payment
map_option f none = none
map_option f (some p) = some (f p)

-- The payment with the id is changed, under whatever key it is.
unfoldable pub amend : String → (Payment → Payment) → Book → Book
amend id f b k = map_option (λ p. if p.id == id then f p else p) (b k)

find-update :
    (t u : Payment → Bool) (f : Payment → Payment)
    → ((p : Payment) → t (f p) ≡ t p)
    → (ps : List Payment)
    → find t (update u f ps) ≡ map_option (λ p. if u p then f p else p) (find t ps)
unfolding find update
find-update t u f same [] = refl
find-update t u f same (p ∷ ps) =
    by_tests (find-update t u f same ps) (u p) (t p) refl refl (same p)
  where
    by_tests :
        find t (update u f ps) ≡ map_option (λ p. if u p then f p else p) (find t ps)
        → (a b : Bool) → u p ≡ a
        → t p ≡ b
        → t (f p) ≡ t p
        → (let row : Payment = if a then f p else p in
            if t row then some row else find t (update u f ps))
          ≡ map_option (λ p. if u p then f p else p) (if b then some p else find t ps)
    by_tests ih true true one two eq = let t' : t (f p) ≡ true = eq ∙ two in rw (t', one)
    by_tests ih true false one two eq = let t' : t (f p) ≡ false = eq ∙ two in rw (t', ih)
    by_tests ih false true one two eq = rw (two, one)
    by_tests ih false false one two eq = rw (two, ih)

module _ (e : Env) where
  -- A lookup reads the book.
  find-book_of :
      (k : Key) (w : World)
      → e.fault w.tick ≡ fine
      → (find_payment_by_app_ref_type e k.app_id k.app_ref k.kind w).0 ≡ scan_payment (book_of w k)
  unfolding find_payment_by_app_ref_type statement book_of
  find-book_of k w runs = rw runs

  -- UpdatePaymentStatus, with a status of the schema, amends the book: where the statement runs, the
  -- payment with the id has the status, the reason and the provider, if one is given, under the key
  -- that it had, and every other key has what it had.
  pub update_payment_status-book_of :
      (id status : String) (provider reason : Option String) (w : World) (k : Key)
      → e.fault w.tick ≡ fine
      → is_status status ≡ true
      → book_of (update_payment_status e id status provider reason w).1 k
        ≡ amend id
            (λ p. record p {
              status = status;
              provider = or_else provider p.provider;
              failure_reason = reason;
              updated_at = e.now w.tick;
            })
            (book_of w)
            k
  unfolding update_payment_status statement set_where book_of amend
  update_payment_status-book_of id status provider reason w k runs valid =
      rw (runs, valid, and_false (any (λ (p : Payment). p.id == id) w.payments))
        (find-update (has_key k) (λ p. p.id == id) _ (λ p. refl) w.payments)

  insert_new :
      (row : Payment) (w : World)
      → fits_columns row ≡ true
      → any (same_key row) w.payments ≡ false
      → any (same_ref row) w.payments ≡ false
      → refers w row ≡ true
      → insert_or_nothing row w ≡ (ok row, record w { payments = row ∷ w.payments })
  unfolding insert_or_nothing insert_payment
  insert_new row w fits new apart there = rw (fits, new, apart, there)

  Key-eq : (k l : Key) → k.app_id ≡ l.app_id → k.app_ref ≡ l.app_ref → k.kind ≡ l.kind → k ≡ l
  Key-eq k l one two three i = record { app_id = one i; app_ref = two i; kind = three i }

  -- The row has no key but its own.
  book_of_key : (b : Book) (k : Key) (row : Payment) → has_key k row ≡ true → b k ≡ b (key_of row)
  book_of_key b k row h =
      ap b (sym (Key-eq (key_of row) k (ground arith) (ground arith) (ground arith)))

  pub is_unkeyed :
      (row : Payment) (ps : List Payment)
      → find (has_key (key_of row)) ps ≡ none
      → any (same_key row) ps ≡ false
  unfolding find any
  is_unkeyed row [] h = refl
  is_unkeyed row (p ∷ ps) h = let rest = is_unkeyed row ps in ground arith

  -- The payment that CreatePayment puts into the book, unless its key is taken.
  abbrev pub new_row : PaymentParams → Option String → World → Payment
  new_row params return_url w = record (fresh e type_deposit params w) { return_url = return_url }

  put_taken :
      (row : Payment) (w : World) (p : Payment)
      → book_of w (key_of row) ≡ some p
      → (k : Key) → book_of w k ≡ put row (book_of w) k
  unfolding put
  put_taken row w p taken k = by_key (has_key k row) refl
    where
      by_key :
          (b : Bool)
          → has_key k row ≡ b
          → book_of w k ≡ (if b then some (or_new (book_of w k) row) else book_of w k)
      by_key true eq =
          let here : book_of w k ≡ some p = book_of_key (book_of w) k row eq ∙ taken in rw here
      by_key false eq = refl

  put_new :
      (row : Payment) (w : World)
      → book_of w (key_of row) ≡ none
      → (k : Key) → book_of (record w { payments = row ∷ w.payments }) k ≡ put row (book_of w) k
  unfolding put book_of find
  put_new row w free k = by_key (has_key k row) refl
    where
      by_key :
          (b : Bool)
          → has_key k row ≡ b
          → (if b then some row else find (has_key k) w.payments) ≡ (
              if b
              then some (or_new (find (has_key k) w.payments) row)
              else find (has_key k) w.payments)
      by_key true eq =
          let here : find (has_key k) w.payments ≡ none =
            book_of_key (λ k. find (has_key k) w.payments) k row eq ∙ free in
          rw here
      by_key false eq = refl

  -- The row is put into the book of `w`, and what is then under its key is returned.
  abbrev pub IsPut : World → Payment → Result Payment × World → Type 0
  IsPut w row a =
      (a.0 ≡ ok (or_new (book_of w (key_of row)) row))
      × ((k : Key) → book_of a.1 k ≡ put row (book_of w) k)

  taken-IsPut :
      (row : Payment) (w : World) (p : Payment) (tick : ℕ)
      → book_of w (key_of row) ≡ some p
      → IsPut w row (ok p, record w { tick = tick })
  unfolding book_of
  taken-IsPut row w p tick taken = (let here = taken in rw here, λ k. put_taken row w p taken k)

  new-IsPut :
      (row : Payment) (w : World) (tick : ℕ)
      → book_of w (key_of row) ≡ none
      → IsPut w row (ok row, record w { payments = row ∷ w.payments; tick = tick })
  unfolding book_of
  new-IsPut row w tick free = (let here = free in rw here, λ k. put_new row w free k)

  pub create_payment_new :
      (params : PaymentParams) (return_url : Option String) (w : World)
      → e.fault w.tick ≡ fine
      → fits_columns (new_row params return_url w) ≡ true
      → any (same_key (new_row params return_url w)) w.payments ≡ false
      → any (same_ref (new_row params return_url w)) w.payments ≡ false
      → refers w (new_row params return_url w) ≡ true
      → create_payment e params return_url w ≡ (
        ok (new_row params return_url w),
        record w { payments = new_row params return_url w ∷ w.payments; tick = w.tick + 1 },
      )
  unfolding create_payment statement
  create_payment_new params return_url w first fits new apart there = rw (
    first,
    insert_new (new_row params return_url w) (record w { tick = w.tick + 1 }) fits new apart there,
  )

  -- CreatePayment puts a payment into the book, if its key is free, and returns the payment that is
  -- then under the key; nothing else in the book changes. The statements run, the amounts are those of
  -- an INTEGER column, the id and the reference are new, and the app is there.
  pub create_payment-IsPut :
      (params : PaymentParams) (return_url : Option String) (w : World)
      → e.fault w.tick ≡ fine
      → e.fault (w.tick + 1) ≡ fine
      → fits_columns (new_row params return_url w) ≡ true
      → any (same_ref (new_row params return_url w)) w.payments ≡ false
      → refers w (new_row params return_url w) ≡ true
      → IsPut w (new_row params return_url w) (create_payment e params return_url w)
  unfolding book_of
  create_payment-IsPut params return_url w first second fits apart there =
      let row = new_row params return_url w in
      elim (Option-cases (book_of w (key_of row))) [
        | inl free ↦
            let new = is_unkeyed row w.payments free in
            subst (IsPut w row)
              (sym (create_payment_new params return_url w first fits new apart there))
              (new-IsPut row w (w.tick + 1) free)
        | inr (p, taken) ↦
            subst (IsPut w row)
              (sym (create_payment_existing e params return_url p w first second fits taken))
              (taken-IsPut row w p (w.tick + 1 + 1) taken)
      ]
